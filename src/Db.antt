-- ===== src/Db.antt =====
-- The database of internal/infra/psql: the tables of migrations/00001_init.up.sql that the code
-- reads and writes, each a list of rows, and what each SQL statement does to them. A statement
-- that violates a key of the schema returns `none`. The users, the members and the columns' widths
-- are left out.
pub mod Rows
pub mod Installations
pub mod Coherent
pub mod Sweeps
use synthy.Prelude.{
  String, Bool, true, false, not, ◌&&◌, ◌||◌, List, [], ◌∷◌, ◌++◌, map, Option, none, some, keep,
  exists, contains, ◌==◌, if◌then◌else◌,
}
use synthy.Model.{Repository, File, Symbol, CodeChunk, CallEdge, ImportEdge, Installation}

pub record Db : Type 0 where
  pub repositories : List Repository
  pub files : List File
  pub symbols : List Symbol
  pub chunks : List CodeChunk
  pub call_edges : List CallEdge
  pub import_edges : List ImportEdge
  pub installations : List Installation

abbrev pub repository_ids : Db → List String
repository_ids db = map (λ r. r.id) db.repositories

abbrev pub file_ids : Db → List String
file_ids db = map (λ f. f.id) db.files

abbrev pub symbol_ids : Db → List String
symbol_ids db = map (λ s. s.id) db.symbols

abbrev pub chunk_ids : Db → List String
chunk_ids db = map (λ c. c.id) db.chunks

abbrev pub or_violation : Bool → Db → Option Db
or_violation true db = some db
or_violation false db = none

-- The primary key is new. The organization is an external reference, by the third migration.
unfoldable pub insert_repository : Repository → Db → Option Db
insert_repository r db =
    or_violation (not (contains r.id (repository_ids db)))
      (record db { repositories = db.repositories ++ r ∷ [] })

abbrev pub same_path : File → File → Bool
same_path f g = f.repository_id == g.repository_id && f.path == g.path

unfoldable pub insert_file : File → Db → Option Db
insert_file f db =
    or_violation
      (not (contains f.id (file_ids db))
        && not (exists (same_path f) db.files)
        && contains f.repository_id (repository_ids db))
      (record db { files = db.files ++ f ∷ [] })

abbrev pub parent_known : Option String → List String → Bool
parent_known none known = true
parent_known (some p) known = contains p known

unfoldable pub insert_symbol : Symbol → Db → Option Db
insert_symbol s db =
    or_violation
      (not (contains s.id (symbol_ids db))
        && contains s.file_id (file_ids db)
        && contains s.repository_id (repository_ids db)
        && parent_known s.parent_symbol_id (symbol_ids db))
      (record db { symbols = db.symbols ++ s ∷ [] })

unfoldable pub insert_chunk : CodeChunk → Db → Option Db
insert_chunk c db =
    or_violation
      (not (contains c.id (chunk_ids db))
        && contains c.file_id (file_ids db)
        && contains c.symbol_id (symbol_ids db)
        && contains c.repository_id (repository_ids db))
      (record db { chunks = db.chunks ++ c ∷ [] })

unfoldable pub insert_call_edge : CallEdge → Db → Option Db
insert_call_edge e db =
    or_violation
      (not (contains e.id (map (λ d. d.id) db.call_edges))
        && contains e.repository_id (repository_ids db)
        && contains e.caller_symbol_id (symbol_ids db)
        && contains e.callee_symbol_id (symbol_ids db)
        && contains e.file_id (file_ids db))
      (record db { call_edges = db.call_edges ++ e ∷ [] })

unfoldable pub insert_import_edge : ImportEdge → Db → Option Db
insert_import_edge e db =
    or_violation
      (not (contains e.id (map (λ d. d.id) db.import_edges))
        && contains e.repository_id (repository_ids db)
        && contains e.from_file_id (file_ids db)
        && contains e.to_file_id (file_ids db))
      (record db { import_edges = db.import_edges ++ e ∷ [] })

-- ON DELETE SET NULL of `symbol.parent_symbol_id`
abbrev pub forget : Option String → List String → Option String
forget none gone = none
forget (some p) gone = if contains p gone then none else some p

abbrev pub orphan : List String → Symbol → Symbol
orphan gone s = record s { parent_symbol_id = forget s.parent_symbol_id gone }

abbrev pub gone_file : List String → (File → Bool) → File → Bool
gone_file repos p f = p f || contains f.repository_id repos

abbrev pub gone_symbol : List String → List String → Symbol → Bool
gone_symbol repos files s = contains s.file_id files || contains s.repository_id repos

abbrev pub gone_chunk : List String → List String → List String → CodeChunk → Bool
gone_chunk repos files symbols c =
    contains c.file_id files || contains c.symbol_id symbols || contains c.repository_id repos

abbrev pub gone_call : List String → List String → List String → CallEdge → Bool
gone_call repos files symbols e =
    contains e.file_id files
    || contains e.caller_symbol_id symbols
    || contains e.callee_symbol_id symbols
    || contains e.repository_id repos

abbrev pub gone_import : List String → List String → ImportEdge → Bool
gone_import repos files e =
    contains e.from_file_id files || contains e.to_file_id files || contains e.repository_id repos

-- ON DELETE CASCADE: the repositories with the given keys go, the files that pass the test, and
-- every row that refers to a row that goes.
unfoldable pub delete_cascade : List String → (File → Bool) → Db → Db
delete_cascade repos p db =
    let files = map (λ f. f.id) (keep (gone_file repos p) db.files) in
    let symbols = map (λ s. s.id) (keep (gone_symbol repos files) db.symbols) in
    record db {
      repositories = keep (λ r. not (contains r.id repos)) db.repositories;
      files = keep (λ f. not (gone_file repos p f)) db.files;
      symbols = map (orphan symbols) (keep (λ s. not (gone_symbol repos files s)) db.symbols);
      chunks = keep (λ c. not (gone_chunk repos files symbols c)) db.chunks;
      call_edges = keep (λ e. not (gone_call repos files symbols e)) db.call_edges;
      import_edges = keep (λ e. not (gone_import repos files e)) db.import_edges;
    }

unfoldable pub delete_repository_by_id : String → Db → Db
unfolding delete_cascade
delete_repository_by_id id = delete_cascade (id ∷ []) (λ _. false)

unfoldable pub delete_files_by_repository_id : String → Db → Db
unfolding delete_cascade
delete_files_by_repository_id id = delete_cascade [] (λ f. f.repository_id == id)

unfoldable pub delete_file_by_id : String → Db → Db
unfolding delete_cascade
delete_file_by_id id = delete_cascade [] (λ f. f.id == id)
