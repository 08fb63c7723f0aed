-- ===== src/Pipeline/Coherent/Saved.antt =====
-- The symbols that internal/core/symbol/service.go has saved, and the chunks in the database.
use synthy.Prelude.{
  String, ◌≡◌, arith, inl, inr, sym, List, [], ◌∷◌, some, Option-cases, Dict, All, All-map, Member,
}
use mathlib.Core.Path.{subst}
use mathlib.Core.Option.{some-injective}
use synthy.Model.{File, Symbol}
use synthy.Db.{Db, insert_file, insert_symbol, insert_call_edge, insert_import_edge}
use synthy.Db.Coherent.{
  Alone, Alone-IsCoherent, Owns, IsCoherent, insert_symbol-Owns, insert_symbol-Owns_new,
  insert_symbol-IsCoherent,
}
use synthy.World.{Env, insert_batch}
use synthy.World.Growth.{Extends}
use synthy.World.Batch.{insert_all, insert_batch_atomic}
use synthy.World.Leaves.{
  Ends, Leaves, Leaves-pure, Leaves-given, Leaves-known, Leaves-bind, Leaves-wrapping,
}
use synthy.Packages.{Package}
use synthy.Symbols.{save, extract_and_save}
use synthy.Symbols.Extracted.{IsExtracted, extract-IsExtracted}
use synthy.Pipeline.Growth.Sources.{extract-Keeps}

-- Each of the symbols is stored, with its file and its repository.
abbrev pub Pinned : List Symbol → Db → Type 0
Pinned symbols db = (s : Symbol) → Member s symbols → Owns s.id s.file_id s.repository_id db.symbols

abbrev pub Indexed : List Symbol → Db → Type 0
Indexed symbols db = IsCoherent db × Pinned symbols db

pub Alone-Indexed :
    (symbols : List Symbol) (db db' : Db) → Alone db db' → Indexed symbols db → Indexed symbols db'
Alone-Indexed symbols db db' a (coherent, pinned) =
    (Alone-IsCoherent db db' a coherent, λ s m. rw a.1 (pinned s m))

pub Indexed-Extends : (symbols : List Symbol) → Extends (Indexed symbols)
unfolding insert_file insert_call_edge insert_import_edge
Indexed-Extends symbols = record {
  file = λ r. record {
    at = λ db db' e i. Alone-Indexed symbols db db' (ground arith, ground arith) i;
  };
  symbol = λ r. record {
    at = λ db db' e (coherent, pinned). (
      insert_symbol-IsCoherent r db db' e coherent,
      λ s m. insert_symbol-Owns s.id s.file_id s.repository_id r db db' e (pinned s m),
    );
  };
  call_edge = λ r. record {
    at = λ db db' e i. Alone-Indexed symbols db db' (ground arith, ground arith) i;
  };
  import_edge = λ r. record {
    at = λ db db' e i. Alone-Indexed symbols db db' (ground arith, ground arith) i;
  };
}

insert_all-Owns :
    (symbol_id file_id repository_id : String) (symbols : List Symbol) (db db' : Db)
    → insert_all insert_symbol symbols db ≡ some db'
    → Owns symbol_id file_id repository_id db.symbols
    → Owns symbol_id file_id repository_id db'.symbols
insert_all-Owns a b r [] db db' e o =
    subst (λ (d : Db). Owns a b r d.symbols) (some-injective _ _ e) o
insert_all-Owns a b r (s ∷ symbols) db db' e o = elim (Option-cases (insert_symbol s db)) [
  | inl violated ↦ cc (rw violated at e)
  | inr (next, inserted) ↦
      insert_all-Owns a b r symbols next db' (rw inserted at e)
        (insert_symbol-Owns a b r s db next inserted o)
]

insert_all-Indexed :
    (symbols : List Symbol) (db db' : Db)
    → insert_all insert_symbol symbols db ≡ some db'
    → IsCoherent db
    → Indexed symbols db'
insert_all-Indexed [] db db' e coherent =
    subst (Indexed []) (some-injective _ _ e) (coherent, λ s m. elim m [ ])
insert_all-Indexed (x ∷ symbols) db db' e coherent = elim (Option-cases (insert_symbol x db)) [
  | inl violated ↦ cc (rw violated at e)
  | inr (next, inserted) ↦
      let more = rw inserted at e in
      let (after, pinned) =
        insert_all-Indexed symbols next db' more
          (insert_symbol-IsCoherent x db next inserted coherent) in
      let first =
        insert_all-Owns x.id x.file_id x.repository_id symbols next db' more
          (insert_symbol-Owns_new x db next inserted) in
      (after, λ s m. elim m [ inl same ↦ rw same at first | inr other ↦ pinned s other ])
]

-- A batch of symbols is stored as it is, or not at all.
insert_symbols-Leaves :
    (env : Env) (context : String) (symbols : List Symbol)
    → Leaves IsCoherent IsCoherent
        (insert_batch env context insert_symbol symbols)
        (λ _. Indexed symbols)
insert_symbols-Leaves env context symbols = record {
  at = λ w coherent.
      let out = insert_batch env context insert_symbol symbols w in
      elim (insert_batch_atomic env context insert_symbol symbols w) [
        | inl (fine, all) ↦
            subst (λ r. Ends IsCoherent (λ _. Indexed symbols) r out.1.db) (sym fine)
              (insert_all-Indexed symbols w.db out.1.db all coherent)
        | inr (e, failed, same, _) ↦
            subst (λ r. Ends IsCoherent (λ _. Indexed symbols) r out.1.db) (sym failed)
              (subst IsCoherent (sym same) coherent)
      ];
}

-- the symbols are rows of the repository
abbrev pub AreOf : String → List Symbol → Type 0
AreOf id symbols = All (λ s. s.repository_id ≡ id) symbols

module _ (env : Env) (id : String) (files : Dict File) where
  save-Leaves :
      (symbols : List Symbol)
      → AreOf id symbols
      → Leaves IsCoherent IsCoherent
          (save env id files symbols)
          (λ saved db. AreOf id saved × Indexed saved db)
  save-Leaves [] of = Leaves-pure [] (λ db c. (tt, (c, λ s m. elim m [ ])))
  save-Leaves (s ∷ symbols) of =
      Leaves-bind _ _ (Leaves-wrapping _ _ (insert_symbols-Leaves env _ (s ∷ symbols)))
        (λ _. Leaves-pure _ (λ db indexed. (of, indexed)))

  -- What is saved are rows of the repository, each with its file.
  pub extract_and_save-Leaves :
      Extends IsCoherent
      → (pkgs : List Package)
      → Leaves IsCoherent IsCoherent
          (extract_and_save env id files pkgs)
          (λ saved db. AreOf id saved × Indexed saved db)
  unfolding extract_and_save
  extract_and_save-Leaves extends pkgs =
      Leaves-bind _ _
        (Leaves-given (AreOf id) _ (extract-Keeps env IsCoherent extends id files pkgs)
          (λ w out e.
            All-map (IsExtracted env id files) _ (λ s x. x.repository) out
              (extract-IsExtracted env id files pkgs w out e))
          (λ db c. c))
        (λ symbols. Leaves-known _ _ (save-Leaves symbols))
