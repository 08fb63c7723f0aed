-- ===== src/Db/Rows.antt =====
-- The statements that read or update rows: SELECT, UPDATE and the upsert of internal/infra/psql.
-- A SELECT without ORDER BY returns the rows in the order of the table.
use synthy.Prelude.{
  String, Bool, false, not, ◌&&◌, ℕ, List, [], ◌∷◌, ◌++◌, map, Option, none, some, keep, exists,
  find, contains, ◌==◌, ltb, if◌then◌else◌, nat_eq,
}
use synthy.Model.{Repository, File, Symbol, CodeChunk, CallEdge, ImportEdge, Installation}
use synthy.Db.{Db}

-- repositoryRepository.go
unfoldable pub get_repository_by_id : String → Db → Option Repository
get_repository_by_id id db = find (λ r. r.id == id) db.repositories

unfoldable pub get_repository_by_external_id : String → Db → Option Repository
get_repository_by_external_id id db = find (λ r. r.external_id == id) db.repositories

-- ORDER BY created_at DESC
unfoldable pub insert_newest : Repository → List Repository → List Repository
insert_newest r [] = r ∷ []
insert_newest r (s ∷ rest) =
    if ltb r.created_at s.created_at then s ∷ insert_newest r rest else r ∷ s ∷ rest

unfoldable pub newest_first : List Repository → List Repository
newest_first [] = []
newest_first (r ∷ rest) = insert_newest r (newest_first rest)

unfoldable pub list_repositories_by_organization_id : String → Db → List Repository
unfolding insert_newest newest_first
list_repositories_by_organization_id id db =
    newest_first (keep (λ r. r.organization_id == id) db.repositories)

abbrev pub refresh : Repository → Repository → Repository
refresh r row =
    if row.id == r.id
    then (record row {
      name = r.name;
      default_branch = r.default_branch;
      repository_url = r.repository_url;
      storage_url = r.storage_url;
      provider = r.provider;
      updated_at = r.updated_at;
    })
    else row

unfoldable pub update_repository : Repository → Db → Db
update_repository r db = record db { repositories = map (refresh r) db.repositories }

-- fileRepository.go
unfoldable pub get_file_by_repository_id_and_path : String → String → Db → Option File
get_file_by_repository_id_and_path repo path db =
    find (λ f. f.repository_id == repo && f.path == path) db.files

unfoldable pub get_files_by_repository_id : String → Db → List File
get_files_by_repository_id id db = keep (λ f. f.repository_id == id) db.files

-- symbolRepository.go
unfoldable pub get_symbols_by_file_id : String → Db → List Symbol
get_symbols_by_file_id id db = keep (λ s. s.file_id == id) db.symbols

unfoldable pub get_symbols_by_repository_id : String → Db → List Symbol
get_symbols_by_repository_id id db = keep (λ s. s.repository_id == id) db.symbols

-- chunkRepository.go
unfoldable pub get_chunks_by_file_id : String → Db → List CodeChunk
get_chunks_by_file_id id db = keep (λ c. c.file_id == id) db.chunks

unfoldable pub get_chunk_by_id : String → Db → Option CodeChunk
get_chunk_by_id id db = find (λ c. c.id == id) db.chunks

unfoldable pub get_chunks_by_repository_id : String → Db → List CodeChunk
get_chunks_by_repository_id id db = keep (λ c. c.repository_id == id) db.chunks

-- `embedding_id = ANY($1)` is not true of a NULL.
abbrev pub embedding_among : List String → CodeChunk → Bool
embedding_among ids c = elim c.embedding_id [ none ↦ false | some e ↦ contains e ids ]

unfoldable pub get_chunks_by_embedding_ids : List String → Db → List CodeChunk
get_chunks_by_embedding_ids ids db = keep (embedding_among ids) db.chunks

pub record UpdateChunkRequest : Type 0 where
  pub embedding_id : Option String
  pub summary : Option String

-- A column is set only if the request gives it.
abbrev pub or_old : Option String → Option String → Option String
or_old none old = old
or_old (some new) old = some new

abbrev pub amend : String → UpdateChunkRequest → CodeChunk → CodeChunk
amend id req c =
    if c.id == id
    then (record c {
      embedding_id = or_old req.embedding_id c.embedding_id;
      summary = or_old req.summary c.summary;
    })
    else c

unfoldable pub update_chunk : String → UpdateChunkRequest → Db → Db
update_chunk id req db = record db { chunks = map (amend id req) db.chunks }

-- callEdgeRepository.go and importEdgeRepository.go
unfoldable pub get_call_edges_by_caller_symbol_id : String → Db → List CallEdge
get_call_edges_by_caller_symbol_id id db = keep (λ e. e.caller_symbol_id == id) db.call_edges

unfoldable pub get_import_edges_by_from_file_id : String → Db → List ImportEdge
get_import_edges_by_from_file_id id db = keep (λ e. e.from_file_id == id) db.import_edges

-- githubInstallationRepository.go
unfoldable pub get_by_organization : String → Db → Option Installation
get_by_organization id db = find (λ i. i.organization_id == id) db.installations

unfoldable pub get_by_installation_id : ℕ → Db → Option Installation
get_by_installation_id id db = find (λ i. nat_eq i.installation_id id) db.installations

-- ON CONFLICT (organization_id) DO UPDATE keeps the row's own id and creation time.
abbrev pub reinstall : Installation → Installation → Installation
reinstall i row =
    if row.organization_id == i.organization_id
    then (record row {
      installation_id = i.installation_id;
      account_login = i.account_login;
      account_type = i.account_type;
      updated_at = i.created_at;
    })
    else row

-- The keys of `github_installation` are `id`, `organization_id` and `installation_id`.
abbrev pub taken : Installation → Installation → Bool
taken i row =
    not (row.organization_id == i.organization_id) && nat_eq row.installation_id i.installation_id

unfoldable pub upsert_installation : Installation → Db → Option Db
upsert_installation i db =
    if exists (taken i) db.installations
    then none
    else if exists (λ row. row.organization_id == i.organization_id) db.installations
    then some (record db { installations = map (reinstall i) db.installations })
    else if exists (λ row. row.id == i.id) db.installations
    then none
    else some (record db {
      installations = db.installations ++ record i { updated_at = i.created_at } ∷ [];
    })

unfoldable pub delete_by_organization : String → Db → Db
delete_by_organization id db = record db {
  installations = keep (λ i. not (i.organization_id == id)) db.installations;
}
