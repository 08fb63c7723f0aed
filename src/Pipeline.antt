-- ===== src/Pipeline.antt =====
-- internal/usecase/analysis/analysisPipeline.go. Go's maps are walked here in the order of first
-- insertion.
pub mod Growth
pub mod Spared
pub mod Untouched
pub mod Ordering
pub mod GoSources
pub mod Edges
pub mod Run
pub mod Identity
pub mod Incremental
pub mod Coherent
use synthy.Prelude.{
  String, ℕ, Bool, true, false, List, [], ◌∷◌, ◌++◌, map, Option, none, some, Dict, lookup, insert,
  erase, keep, exists, ◌==◌, if◌then◌else◌,
}
use synthy.Exec.{Exec, message, pure, raise, wrapping, ◌>>=◌, ◌>>◌}
use synthy.Model.{Repository, RepositoryProvider, File, Symbol, CodeChunk}
use synthy.Db.{insert_repository, delete_files_by_repository_id, delete_file_by_id}
use synthy.Db.Rows.{
  get_repository_by_external_id, update_repository, get_files_by_repository_id,
  get_symbols_by_repository_id,
}
use synthy.World.{
  World, Env, query, statement, execute, generate_id, time_now, packages_load, publish_embedding,
}
use synthy.Paths.{ext, is_abs, join}
use synthy.Packages.{Package}
use synthy.Files.{process_files}
use synthy.Symbols.{extract_and_save, to_fq_name_map}
use synthy.Calls.{build_and_save_calls}
use synthy.Imports.{build_and_save_imports}
use synthy.Chunker.{process_file}
use synthy.Vectors.{Wiring, delete_repository_vectors, delete_file_vectors}

pub record RepositoryInput : Type 0 where
  pub organization_id : String
  pub external_id : String
  pub name : String
  pub default_branch : String
  pub repository_url : String
  pub provider : RepositoryProvider
  pub incremental : Bool
  pub changed_paths : List String
  pub removed_paths : List String

-- goFiles
unfoldable pub go_files : List String → List String
go_files paths = keep (λ p. ext p == ".go") paths

unfoldable pub symbols_for_file : List Symbol → String → List Symbol
symbols_for_file symbols file_id = keep (λ s. s.file_id == file_id) symbols

abbrev pub or_main : String → String
or_main branch = if branch == "" then "main" else branch

abbrev pub or_other : RepositoryProvider → RepositoryProvider
or_other RepositoryProvider.unset = RepositoryProvider.other
or_other RepositoryProvider.github = RepositoryProvider.github
or_other RepositoryProvider.gitlab = RepositoryProvider.gitlab
or_other RepositoryProvider.other = RepositoryProvider.other

abbrev pub refreshed : String → RepositoryInput → ℕ → Repository → Repository
refreshed path input now r = record r {
  name = input.name;
  default_branch = or_main input.default_branch;
  repository_url = input.repository_url;
  storage_url = path;
  provider = or_other input.provider;
  updated_at = now;
}

abbrev pub new_repository : String → RepositoryInput → String → ℕ → Repository
new_repository path input id now = record {
  id = id;
  organization_id = input.organization_id;
  name = input.name;
  description = none;
  default_branch = or_main input.default_branch;
  repository_url = input.repository_url;
  storage_url = path;
  provider = or_other input.provider;
  external_id = input.external_id;
  created_at = now;
  updated_at = now;
}

-- byRelPath
unfoldable pub by_rel_path : List File → Dict File → Dict File
by_rel_path [] m = m
by_rel_path (f ∷ files) m = by_rel_path files (insert f.path f m)

unfoldable pub rebase : String → Dict File → Dict File
unfolding join
rebase root [] = []
rebase root ((path, f) ∷ files) = insert (join root path) f (rebase root files)

unfoldable pub overlay : Dict File → Dict File → Dict File
overlay [] files = files
overlay ((path, f) ∷ new) files = overlay new (insert path f files)

module _ (env : Env) (wiring : Wiring) where
  abbrev pub upsert : String → RepositoryInput → Option Repository → Exec World Repository
  upsert path input (some r) = do
    now ← time_now env
    wrapping "update repository" (execute env (update_repository (refreshed path input now r)))
    pure (refreshed path input now r)
  upsert path input none = do
    id ← generate_id env
    now ← time_now env
    wrapping "insert repository"
        (statement env (insert_repository (new_repository path input id now)))
    pure (new_repository path input id now)

  unfoldable pub upsert_repository_record :
      String → RepositoryInput → Option Repository → Exec World Repository
  upsert_repository_record path input existing = upsert path input existing

  abbrev pub some_packages : List Package → Exec World (List Package)
  some_packages [] = raise (message "no packages found")
  some_packages (p ∷ pkgs) = pure (p ∷ pkgs)

  unfoldable pub load_packages : String → Exec World (List Package)
  load_packages path = do
    pkgs ← wrapping "load packages" (packages_load env path)
    some_packages pkgs

  unfoldable pub build_edges :
      String → Dict File → Dict Symbol → List Package → Exec World (Unit {0})
  build_edges repository_id files symbols pkgs = do
    wrapping "build call edges" (build_and_save_calls env repository_id symbols files pkgs)
    wrapping "build import edges" (build_and_save_imports env repository_id files pkgs)
    pure tt

  unfoldable pub publish_chunks : String → List CodeChunk → Exec World (Unit {0})
  publish_chunks repository_id [] = pure tt
  publish_chunks repository_id (c ∷ chunks) =
      let rest = publish_chunks repository_id chunks in
      if wiring.embedding_publisher
      then wrapping "publish chunk"
          (publish_embedding env (record { chunk_id = c.id; repository_id = repository_id }))
        >> rest
      else rest

  unfoldable pub chunk_and_publish : String → List Symbol → Dict File → Exec World (Unit {0})
  unfolding publish_chunks symbols_for_file
  chunk_and_publish repository_id symbols [] = pure tt
  chunk_and_publish repository_id symbols ((path, f) ∷ files) = do
    chunks ←
        wrapping "process chunks"
          (process_file env repository_id f.id path (symbols_for_file symbols f.id))
    publish_chunks repository_id chunks
    chunk_and_publish repository_id symbols files

  unfoldable pub clear_index : String → Exec World (Unit {0})
  clear_index repository_id = do
    delete_repository_vectors env wiring repository_id
    wrapping "delete existing files" (execute env (delete_files_by_repository_id repository_id))

  -- processFull, once the previous index is cleared
  unfoldable pub build_index : String → Repository → Exec World (Unit {0})
  build_index path repo = do
    pkgs ← load_packages path
    files ← wrapping "process files" (process_files env repo.id path pkgs none)
    symbols ← wrapping "extract symbols" (extract_and_save env repo.id files pkgs)
    build_edges repo.id files (to_fq_name_map symbols) pkgs
    chunk_and_publish repo.id symbols files

  unfoldable pub process_full : String → Repository → Bool → Exec World (Unit {0})
  unfolding clear_index build_index
  process_full path repo reindex = do
    if reindex then clear_index repo.id else pure tt
    build_index path repo

  abbrev pub discard_file : Option File → Exec World (Unit {0})
  discard_file none = pure tt
  discard_file (some f) = do
    delete_file_vectors env wiring f.id
    wrapping "delete file" (execute env (delete_file_by_id f.id))

  -- Discards the changed and the removed files; what is left of `byRelPath`.
  unfoldable pub discard : List String → Dict File → Exec World (Dict File)
  discard [] files = pure files
  discard (path ∷ paths) files = do
    discard_file (lookup path files)
    discard paths (erase path files)

  unfoldable pub rebuild_changed :
      String → Repository → List String → Dict File → Exec World (Unit {0})
  rebuild_changed path repo changed kept = do
    pkgs ← load_packages path
    new_files ←
        wrapping "process changed files"
          (process_files env repo.id path pkgs (some (map (join path) changed)))
    new_symbols ← wrapping "extract symbols" (extract_and_save env repo.id new_files pkgs)
    all_symbols ← wrapping "list symbols" (query env (get_symbols_by_repository_id repo.id))
    build_edges repo.id (overlay new_files (rebase path kept)) (to_fq_name_map all_symbols) pkgs
    chunk_and_publish repo.id new_symbols new_files

  abbrev pub discard_and_rebuild :
      String → Repository → List String → List String → List File → Exec World (Unit {0})
  discard_and_rebuild path repo [] [] existing = pure tt
  discard_and_rebuild path repo changed removed existing = do
    kept ← discard (changed ++ removed) (by_rel_path existing [])
    rebuild_changed path repo changed kept

  unfoldable pub process_incremental : String → Repository → RepositoryInput → Exec World (Unit {0})
  unfolding go_files discard rebuild_changed by_rel_path
  process_incremental path repo input = do
    existing ← wrapping "list existing files" (query env (get_files_by_repository_id repo.id))
    if exists (λ f. is_abs f.path) existing
        then process_full path repo true
        else discard_and_rebuild path repo (go_files input.changed_paths)
            (go_files input.removed_paths) existing

  abbrev pub process_existing :
      String → RepositoryInput → Repository → Option Repository → Exec World (Unit {0})
  process_existing path input repo none = process_full path repo false
  process_existing path input repo (some _) =
      if input.incremental then process_incremental path repo input else process_full path repo true

  unfoldable pub process_repository : String → RepositoryInput → Exec World (Unit {0})
  unfolding upsert_repository_record
  process_repository path input = do
    existing ←
        wrapping "check existing repository"
          (query env (get_repository_by_external_id input.external_id))
    repo ← upsert_repository_record path input existing
    process_existing path input repo existing
