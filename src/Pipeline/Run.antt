-- ===== src/Pipeline/Run.antt =====
-- A whole index run, for a property of the database that its inserts, its updates of repositories
-- and its deletes of files keep.
use synthy.Prelude.{
  String, Bool, true, false, List, [], ◌∷◌, ◌++◌, Option, none, some, Dict, ◌==◌, lookup, erase,
}
use synthy.World.Keeps.{Keeps, Keeps-pure, Keeps-if, Keeps-bind, Keeps-wrapping}
use synthy.Model.{Repository, File}
use synthy.Db.{
  Db, insert_repository, delete_cascade, delete_file_by_id, delete_files_by_repository_id,
}
use synthy.Db.Rows.{update_repository}
use synthy.World.{Env}
use synthy.World.Growth.{
  OnDb, Inserts, Grows, execute-Keeps, statement-Keeps, query-Keeps, time_now-Keeps,
  generate_id-Keeps,
}
use synthy.Vectors.{Wiring}
use synthy.Vectors.Cleanup.{delete_file_vectors-Keeps, delete_repository_vectors-Keeps}
use synthy.Pipeline.{
  RepositoryInput, discard_file, discard, discard_and_rebuild, process_incremental, process_full,
  build_index, clear_index, upsert, upsert_repository_record, process_existing, process_repository,
  refreshed, new_repository,
}
use synthy.Pipeline.Growth.{
  rebuild_changed-Keeps, load_packages-Keeps, build_edges-Keeps, chunk_and_publish-Keeps,
}
use synthy.Pipeline.Growth.Sources.{process_files-Keeps, extract_and_save-Keeps}

-- What else an index run does to the tables keeps `Q`.
pub record Survives (Q : Db → Type 0) : Type 0 where
  pub registers : (r : Repository) → Inserts Q (insert_repository r)
  pub updates : (r : Repository) (db : Db) → Q db → Q (update_repository r db)
  pub deletes : (p : File → Bool) (db : Db) → Q db → Q (delete_cascade [] p db)

pub record Lives (Q : Db → Type 0) : Type 0 where
  pub grows : Grows Q
  pub survives : Survives Q

module _ (env : Env) (wiring : Wiring) (Q : Db → Type 0) (l : Survives Q) where
  pub clear_index-Keeps : (id : String) → Keeps (OnDb Q) (clear_index env wiring id)
  unfolding clear_index delete_files_by_repository_id
  clear_index-Keeps id = Keeps-bind _ _ (delete_repository_vectors-Keeps env Q wiring id) λ _.
      Keeps-wrapping _ _ (execute-Keeps env Q _ (λ db. l.deletes (λ f. f.repository_id == id) db))

  discard_file-Keeps : (found : Option File) → Keeps (OnDb Q) (discard_file env wiring found)
  unfolding delete_file_by_id
  discard_file-Keeps none = Keeps-pure tt
  discard_file-Keeps (some f) =
      Keeps-bind _ _ (delete_file_vectors-Keeps env Q wiring f.id)
        λ _. Keeps-wrapping _ _ (execute-Keeps env Q _ (λ db. l.deletes (λ g. g.id == f.id) db))

  pub discard-Keeps :
      (paths : List String) (files : Dict File) → Keeps (OnDb Q) (discard env wiring paths files)
  unfolding discard
  discard-Keeps [] files = Keeps-pure files
  discard-Keeps (path ∷ paths) files =
      Keeps-bind _ _ (discard_file-Keeps (lookup path files))
        (λ _. discard-Keeps paths (erase path files))

module _ (env : Env) (wiring : Wiring) (Q : Db → Type 0)
    (registers : (r : Repository) → Inserts Q (insert_repository r))
    (updates : (r : Repository) (db : Db) → Q db → Q (update_repository r db)) where
  pub upsert-Keeps :
      (path : String) (input : RepositoryInput) (existing : Option Repository)
      → Keeps (OnDb Q) (upsert env wiring path input existing)
  upsert-Keeps path input (some old) = Keeps-bind _ _ (time_now-Keeps env Q) λ now.
      Keeps-bind _ _
        (Keeps-wrapping _ _ (execute-Keeps env Q _ (updates (refreshed path input now old))))
        (λ _. Keeps-pure _)
  upsert-Keeps path input none = Keeps-bind _ _ (generate_id-Keeps env Q) λ id.
      Keeps-bind _ _ (time_now-Keeps env Q) λ now.
        Keeps-bind _ _
          (Keeps-wrapping _ _
            (statement-Keeps env Q _ (registers (new_repository path input id now))))
          (λ _. Keeps-pure _)

module _ (env : Env) (wiring : Wiring) (Q : Db → Type 0) (g : Grows Q) where
  pub build_index-Keeps :
      (path : String) (repo : Repository) → Keeps (OnDb Q) (build_index env wiring path repo)
  unfolding build_index
  build_index-Keeps path repo = Keeps-bind _ _ (load_packages-Keeps env wiring Q path) λ pkgs.
      Keeps-bind _ _
        (Keeps-wrapping _ _ (process_files-Keeps env Q g.others repo.id path pkgs none))
        λ files.
          Keeps-bind _ _
            (Keeps-wrapping _ _ (extract_and_save-Keeps env Q g.others repo.id files pkgs))
            λ symbols.
              Keeps-bind _ _ (build_edges-Keeps env wiring Q g.others repo.id files _ pkgs)
                (λ _. chunk_and_publish-Keeps env wiring Q g repo.id symbols files)

  -- A repository's first index run deletes nothing.
  pub process_first-Keeps :
      (path : String) (repo : Repository) → Keeps (OnDb Q) (process_full env wiring path repo false)
  unfolding process_full
  process_first-Keeps path repo = Keeps-bind _ _ (Keeps-pure tt) (λ _. build_index-Keeps path repo)

module _ (env : Env) (wiring : Wiring) (Q : Db → Type 0) (l : Lives Q) where
  process_full-Keeps :
      (path : String) (repo : Repository) (reindex : Bool)
      → Keeps (OnDb Q) (process_full env wiring path repo reindex)
  unfolding process_full
  process_full-Keeps path repo reindex =
      Keeps-bind _ _
        (Keeps-if reindex _ _ (clear_index-Keeps env wiring Q l.survives repo.id) (Keeps-pure tt))
        (λ _. build_index-Keeps env wiring Q l.grows path repo)

  discard_and_rebuild-Keeps :
      (path : String) (repo : Repository) (changed removed : List String) (existing : List File)
      → Keeps (OnDb Q) (discard_and_rebuild env wiring path repo changed removed existing)
  discard_and_rebuild-Keeps path repo [] [] existing = Keeps-pure tt
  discard_and_rebuild-Keeps path repo [] (x ∷ removed) existing =
      Keeps-bind _ _ (discard-Keeps env wiring Q l.survives (x ∷ removed) _)
        (rebuild_changed-Keeps env wiring Q l.grows path repo [])
  discard_and_rebuild-Keeps path repo (p ∷ changed) removed existing =
      Keeps-bind _ _ (discard-Keeps env wiring Q l.survives (p ∷ changed ++ removed) _)
        (rebuild_changed-Keeps env wiring Q l.grows path repo (p ∷ changed))

  process_incremental-Keeps :
      (path : String) (repo : Repository) (input : RepositoryInput)
      → Keeps (OnDb Q) (process_incremental env wiring path repo input)
  unfolding process_incremental
  process_incremental-Keeps path repo input =
      Keeps-bind _ _ (Keeps-wrapping _ _ (query-Keeps env Q _)) λ existing.
        Keeps-if _ _ _ (process_full-Keeps path repo true)
          (discard_and_rebuild-Keeps path repo _ _ existing)

  process_existing-Keeps :
      (path : String) (input : RepositoryInput) (repo : Repository) (existing : Option Repository)
      → Keeps (OnDb Q) (process_existing env wiring path input repo existing)
  process_existing-Keeps path input repo none = process_full-Keeps path repo false
  process_existing-Keeps path input repo (some _) =
      Keeps-if _ _ _ (process_incremental-Keeps path repo input) (process_full-Keeps path repo true)

  pub process_repository-Keeps :
      (path : String) (input : RepositoryInput)
      → Keeps (OnDb Q) (process_repository env wiring path input)
  unfolding process_repository upsert_repository_record
  process_repository-Keeps path input =
      Keeps-bind _ _ (Keeps-wrapping _ _ (query-Keeps env Q _)) λ existing.
        Keeps-bind _ _
          (upsert-Keeps env wiring Q l.survives.registers l.survives.updates path input existing)
          (λ repo. process_existing-Keeps path input repo existing)
