-- ===== src/Db/Coherent.antt =====
-- The chunks of internal/infra/psql and the symbols that they point at.
pub mod Cascade
use mathlib.Core.Path.{subst}
use synthy.Db.Rows.{update_chunk, UpdateChunkRequest, amend, upsert_installation}
use mathlib.Core.List.{map-append}
use synthy.Prelude.{
  String, ◌≡◌, refl, sym, ap, ◌∙◌, inl, inr, arith, true, false, List, [], ◌∷◌, ◌++◌, map, some,
  Member, Member-append, Member-append_right, Member-map, contains, contains-append, contains-map,
}
use synthy.Model.{Symbol, CodeChunk, Installation}
use synthy.Db.{Db, insert_symbol, insert_chunk}

abbrev pub symbol_key : Symbol → String
symbol_key s = s.id

-- There is a symbol with this id, and each symbol with it lies in the file and the repository.
pub record Owns (symbol_id file_id repository_id : String) (symbols : List Symbol) : Type 0 where
  pub known : contains symbol_id (map symbol_key symbols) ≡ true
  pub same :
      (s : Symbol)
      → Member s symbols
      → s.id ≡ symbol_id
      → (s.file_id ≡ file_id) × (s.repository_id ≡ repository_id)

-- Each chunk points at a symbol that is stored, and that lies in the chunk's own file and repository.
abbrev pub IsCoherent : Db → Type 0
IsCoherent db =
    (c : CodeChunk) → Member c db.chunks → Owns c.symbol_id c.file_id c.repository_id db.symbols

module _ (s : Symbol) (symbols : List Symbol)
    (fresh : contains s.id (map symbol_key symbols) ≡ false) where
  pub Owns-append :
      (symbol_id file_id repository_id : String)
      → Owns symbol_id file_id repository_id symbols
      → Owns symbol_id file_id repository_id (symbols ++ s ∷ [])
  Owns-append symbol_id file_id repository_id o = record {
    known =
        rw
          (
            map-append symbol_key symbols (s ∷ []),
            contains-append symbol_id (map symbol_key symbols) (s.id ∷ []),
          )
          (ground (arith, o.known));
    same = λ t m e. elim (Member-append t symbols (s ∷ []) m) [
      | inl old ↦ o.same t old e
      | inr (inl new) ↦ absurd (
          ground (
            arith,
            o.known,
            ap (λ (x : String). contains x (map symbol_key symbols)) (ap symbol_key new ∙ e),
          ))
      | inr (inr none_left) ↦ absurd none_left
    ];
  }

  pub Owns-new : Owns s.id s.file_id s.repository_id (symbols ++ s ∷ [])
  Owns-new = record {
    known = contains-map symbol_key s _ (Member-append_right s symbols (s ∷ []) (inl refl));
    same = λ t m e. elim (Member-append t symbols (s ∷ []) m) [
      | inl old ↦ absurd (
          ground (
            arith,
            contains-map symbol_key t symbols old,
            ap (λ (x : String). contains x (map symbol_key symbols)) e,
          ))
      | inr (inl new) ↦
          (ap (λ (x : Symbol). x.file_id) (sym new), ap (λ (x : Symbol). x.repository_id) (sym new))
      | inr (inr none_left) ↦ absurd none_left
    ];
  }

-- What leaves the chunks and the symbols alone keeps them coherent.
abbrev pub Alone : Db → Db → Type 0
Alone db db' = (db'.chunks ≡ db.chunks) × (db'.symbols ≡ db.symbols)

pub Alone-IsCoherent : (db db' : Db) → Alone db db' → IsCoherent db → IsCoherent db'
Alone-IsCoherent db db' a coherent = λ c m. rw a.1 (coherent c (rw a.0 at m))

insert_symbol_inserted :
    (s : Symbol) (db db' : Db)
    → insert_symbol s db ≡ some db'
    → (contains s.id (map symbol_key db.symbols) ≡ false)
      × (db'.symbols ≡ db.symbols ++ s ∷ [])
      × (db'.chunks ≡ db.chunks)
unfolding insert_symbol
insert_symbol_inserted s db db' e = ground arith

pub insert_symbol-Owns :
    (symbol_id file_id repository_id : String) (s : Symbol) (db db' : Db)
    → insert_symbol s db ≡ some db'
    → Owns symbol_id file_id repository_id db.symbols
    → Owns symbol_id file_id repository_id db'.symbols
insert_symbol-Owns symbol_id file_id repository_id s db db' e o =
    let (fresh, symbols, _) = insert_symbol_inserted s db db' e in
    rw symbols (Owns-append s db.symbols fresh symbol_id file_id repository_id o)

pub insert_symbol-Owns_new :
    (s : Symbol) (db db' : Db)
    → insert_symbol s db ≡ some db'
    → Owns s.id s.file_id s.repository_id db'.symbols
insert_symbol-Owns_new s db db' e =
    let (fresh, symbols, _) = insert_symbol_inserted s db db' e in
    rw symbols (Owns-new s db.symbols fresh)

pub insert_symbol-IsCoherent :
    (s : Symbol) (db db' : Db) → insert_symbol s db ≡ some db' → IsCoherent db → IsCoherent db'
insert_symbol-IsCoherent s db db' e coherent = λ c m.
    let (_, _, chunks) = insert_symbol_inserted s db db' e in
    insert_symbol-Owns c.symbol_id c.file_id c.repository_id s db db' e
      (coherent c (rw chunks at m))

pub insert_chunk_inserted :
    (c : CodeChunk) (db db' : Db)
    → insert_chunk c db ≡ some db'
    → (db'.chunks ≡ db.chunks ++ c ∷ []) × (db'.symbols ≡ db.symbols)
unfolding insert_chunk
insert_chunk_inserted c db db' e = ground arith

-- A chunk may be inserted where its symbol lies in its file and its repository.
pub insert_chunk-IsCoherent :
    (c : CodeChunk) (db db' : Db)
    → insert_chunk c db ≡ some db'
    → Owns c.symbol_id c.file_id c.repository_id db.symbols
    → IsCoherent db
    → IsCoherent db'
insert_chunk-IsCoherent c db db' e o coherent = λ d m.
    let (chunks, symbols) = insert_chunk_inserted c db db' e in
    rw symbols (elim (Member-append d db.chunks (c ∷ []) (rw chunks at m)) [
      | inl old ↦ coherent d old
      | inr (inl new) ↦ rw (← new) o
      | inr (inr none_left) ↦ absurd none_left
    ])

amend_same :
    (id : String) (req : UpdateChunkRequest) (c : CodeChunk)
    → ((amend id req c).symbol_id ≡ c.symbol_id)
      × ((amend id req c).file_id ≡ c.file_id)
      × ((amend id req c).repository_id ≡ c.repository_id)
amend_same id req c = ground arith

Owns-amended :
    (id : String) (req : UpdateChunkRequest) (c d : CodeChunk) (symbols : List Symbol)
    → amend id req c ≡ d
    → Owns c.symbol_id c.file_id c.repository_id symbols
    → Owns d.symbol_id d.file_id d.repository_id symbols
Owns-amended id req c d symbols e o =
    let (symbol, file, repository) = amend_same id req c in
    subst (λ x. Owns x.symbol_id x.file_id x.repository_id symbols) e
      (rw (symbol, file, repository) o)

-- An update of a chunk sets its vector or its summary.
pub update_chunk-IsCoherent :
    (id : String) (req : UpdateChunkRequest) (db : Db)
    → IsCoherent db
    → IsCoherent (update_chunk id req db)
unfolding update_chunk
update_chunk-IsCoherent id req db coherent = λ d m.
    let (c, old, same) = Member-map (amend id req) d db.chunks m in
    Owns-amended id req c d db.symbols same (coherent c old)

-- A connection of an organization is no part of its index.
pub upsert_installation-Alone :
    (i : Installation) (db db' : Db) → upsert_installation i db ≡ some db' → Alone db db'
unfolding upsert_installation
upsert_installation-Alone i db db' e = ground arith
