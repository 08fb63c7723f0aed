-- ===== src/Pipeline/Untouched.antt =====
-- One chunk in the database, and what inserts and deletes of files do to it.
use synthy.Prelude.{
  String, ◌≡◌, sym, ◌∙◌, ap, ◌≢◌, inl, inr, arith, Bool, false, not, List, [], ◌∷◌, map, some,
  Member, Member-append_left, Member-keep, Member-map, contains, contains-map-keep, exists, keep,
  Bool-cases, true,
}
use synthy.Model.{File, Symbol, CodeChunk}
use synthy.Db.{
  Db, insert_file, insert_symbol, insert_chunk, insert_call_edge, insert_import_edge,
  delete_cascade, gone_chunk, gone_file, gone_symbol, orphan,
}
use synthy.World.Growth.{Grows}

module _ (c : CodeChunk) where
  abbrev pub Stored : Db → Type 0
  Stored db = Member c db.chunks

  insert_chunk-Stored :
      (r : CodeChunk) (db db' : Db) → insert_chunk r db ≡ some db' → Stored db → Stored db'
  unfolding insert_chunk
  insert_chunk-Stored r db db' e h = ground (arith, Member-append_left c db.chunks (r ∷ []))

  pub Stored-Grows : Grows Stored
  unfolding insert_file insert_symbol insert_call_edge insert_import_edge
  Stored-Grows = record {
    others = record {
      file = λ r. record { at = λ db db' e h. ground arith };
      symbol = λ r. record { at = λ db db' e h. ground arith };
      call_edge = λ r. record { at = λ db db' e h. ground arith };
      import_edge = λ r. record { at = λ db db' e h. ground arith };
    };
    chunk = λ r. record { at = insert_chunk-Stored r };
  }

  -- The chunk is stored, and its symbol belongs to its file.
  pub record Owned (db : Db) : Type 0 where
    pub stored : Stored db
    pub symbol_in_file :
        (s : Symbol) → Member s db.symbols → s.id ≡ c.symbol_id → s.file_id ≡ c.file_id

  -- No file row of the repository that has one of the paths is the chunk's file.
  abbrev pub Elsewhere : List String → String → Db → Type 0
  Elsewhere paths id db =
      (f : File)
      → Member f db.files
      → f.repository_id ≡ id
      → contains f.path paths ≡ true
      → f.id ≢ c.file_id

  -- No file row of the repository is the chunk's file.
  abbrev pub Outside : String → Db → Type 0
  Outside id db = (f : File) → Member f db.files → f.repository_id ≡ id → f.id ≢ c.file_id

  -- A delete of files that spares the chunk's.
  module _ (hit : File → Bool) (db : Db) (o : Owned db)
      (other : (f : File) → Member f db.files → hit f ≡ true → f.id ≢ c.file_id) where
    gone_files : List String
    gone_files = map (λ f. f.id) (keep (gone_file [] hit) db.files)

    not_gone_file : contains c.file_id gone_files ≡ false
    unfolding gone_files contains exists
    not_gone_file = elim (Bool-cases (contains c.file_id gone_files)) [
      | inl yes_gone ↦
          let (f, m, p, e) =
            contains-map-keep (λ (f : File). f.id) (gone_file [] hit) c.file_id db.files yes_gone in
          absurd (other f m (ground (arith, p)) (ground (arith, e)))
      | inr kept ↦ kept
    ]

    not_gone_symbol :
        contains c.symbol_id (map (λ s. s.id) (keep (gone_symbol [] gone_files) db.symbols)) ≡ false
    unfolding contains exists
    not_gone_symbol =
        elim (Bool-cases
          (contains c.symbol_id (map (λ s. s.id) (keep (gone_symbol [] gone_files) db.symbols)))) [
            | inl yes_gone ↦
                let (s, m, p, e) =
                  contains-map-keep (λ (s : Symbol). s.id) (gone_symbol [] gone_files) c.symbol_id
                    db.symbols yes_gone in
                absurd (
                  ground (
                    arith,
                    not_gone_file,
                    ap (λ (x : String). contains x gone_files) (o.symbol_in_file s m e),
                  ))
            | inr kept ↦ kept
          ]

    stays :
        gone_chunk [] gone_files (map (λ s. s.id) (keep (gone_symbol [] gone_files) db.symbols)) c
        ≡ false
    unfolding contains exists
    stays = ground (arith, not_gone_file, not_gone_symbol)

    -- The chunk stays, too.
    pub delete_cascade-Owned : Owned (delete_cascade [] hit db)
    unfolding delete_cascade gone_files
    delete_cascade-Owned = record {
      stored = (Member-keep _ c db.chunks).1 (o.stored, ap not stays);
      symbol_in_file = λ s m e.
          let (t, n, f) = Member-map (orphan _) s _ m in
          let was = (Member-keep _ t db.symbols).0 n in
          ap (λ (x : Symbol). x.file_id) (sym f)
          ∙ o.symbol_in_file t was.0 (ap (λ (x : Symbol). x.id) f ∙ e);
    }
