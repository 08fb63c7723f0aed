-- ===== src/Pipeline/Coherent.antt =====
-- The chunks' symbols, along internal/usecase/analysis/analysisPipeline.go.
pub mod Saved
pub mod Chunked
use Saved.{Indexed, AreOf, Indexed-Extends, extract_and_save-Leaves}
use Chunked.{chunk_and_publish-Leaves}
use synthy.Prelude.{
  String, Bool, if◌then◌else◌, true, false, List, [], ◌∷◌, ◌++◌, Option, none, some, Dict, arith,
}
use synthy.Exec.{Exec, pure, ◌>>=◌, ◌>>◌}
use synthy.Model.{Repository, File, Symbol}
use synthy.Db.{insert_repository, insert_file, insert_call_edge, insert_import_edge}
use synthy.Db.Rows.{update_repository}
use synthy.Db.Coherent.Cascade.{delete_cascade-IsCoherent}
use synthy.Db.Coherent.{IsCoherent, Alone-IsCoherent, insert_symbol-IsCoherent}
use synthy.World.{World, Env}
use synthy.World.Keeps.{Keeps, Keeps-pure, Keeps-if, Keeps-wrapping}
use synthy.World.Growth.{OnDb, Extends, query-Keeps}
use synthy.World.Leaves.{
  Leaves, Leaves-pure, Leaves-if, Leaves-Keeps, Leaves-known, Leaves-bind, Leaves-wrapping,
  Leaves-end,
}
use synthy.Packages.{Package}
use synthy.Files.{process_files}
use synthy.Vectors.{Wiring}
use synthy.Pipeline.{
  RepositoryInput, clear_index, build_edges, chunk_and_publish, process_full, build_index,
  rebuild_changed, discard_and_rebuild, process_incremental, process_existing, process_repository,
  upsert_repository_record,
}
use synthy.Pipeline.Growth.{load_packages-Keeps, build_edges-Keeps}
use synthy.Pipeline.Growth.Sources.{process_files-Keeps}
use synthy.Pipeline.Run.{Survives, clear_index-Keeps, discard-Keeps, upsert-Keeps}

IsCoherent-Extends : Extends IsCoherent
unfolding insert_file insert_call_edge insert_import_edge
IsCoherent-Extends = record {
  file = λ r. record {
    at = λ db db' e. Alone-IsCoherent db db' (ground (arith, e), ground (arith, e));
  };
  symbol = λ s. record { at = insert_symbol-IsCoherent s };
  call_edge = λ r. record {
    at = λ db db' e. Alone-IsCoherent db db' (ground (arith, e), ground (arith, e));
  };
  import_edge = λ r. record {
    at = λ db db' e. Alone-IsCoherent db db' (ground (arith, e), ground (arith, e));
  };
}

IsCoherent-Survives : Survives IsCoherent
unfolding insert_repository update_repository
IsCoherent-Survives = record {
  registers = λ r. record {
    at = λ db db' e. Alone-IsCoherent db db' (ground (arith, e), ground (arith, e));
  };
  updates = λ r db. Alone-IsCoherent db (update_repository r db) (ground arith, ground arith);
  deletes = λ p db coherent. delete_cascade-IsCoherent [] p db coherent;
}

module _ (env : Env) (wiring : Wiring) where
  steady :
      {A : Type 0} (action : Exec World A)
      → Keeps (OnDb IsCoherent) action
      → Leaves IsCoherent IsCoherent action (λ _. IsCoherent)
  steady action k = Leaves-Keeps action k (λ db c. c)

  -- Edges add to the tables, and leave the symbols that are saved.
  edges_and_chunks :
      (id : String) (files all_files : Dict File) (symbols : List Symbol) (known : Dict Symbol)
      (pkgs : List Package)
      → AreOf id symbols
      → Leaves IsCoherent
          (Indexed symbols)
          (do
            build_edges env wiring id all_files known pkgs
            chunk_and_publish env wiring id symbols files)
          (λ _. IsCoherent)
  edges_and_chunks id files all_files symbols known pkgs of =
      Leaves-bind _ _
        (Leaves-Keeps _
          (build_edges-Keeps env wiring (Indexed symbols) (Indexed-Extends symbols) id all_files
            known pkgs)
          (λ db i. i.0))
        (λ _. chunk_and_publish-Leaves env wiring id symbols of files)

  clear_index-Leaves :
      (repo : Repository) (reindex : Bool)
      → Leaves IsCoherent IsCoherent
          (if reindex then clear_index env wiring repo.id else pure tt)
          (λ _. IsCoherent)
  clear_index-Leaves repo reindex = steady _ (
      Keeps-if reindex _ _ (clear_index-Keeps env wiring IsCoherent IsCoherent-Survives repo.id)
        (Keeps-pure tt))

  process_files-Leaves :
      (id path : String) (pkgs : List Package) (only : Option (List String))
      → Leaves IsCoherent IsCoherent (process_files env id path pkgs only) (λ _. IsCoherent)
  process_files-Leaves id path pkgs only =
      steady _ (process_files-Keeps env IsCoherent IsCoherent-Extends id path pkgs only)

  process_full-Leaves :
      (path : String) (repo : Repository) (reindex : Bool)
      → Leaves IsCoherent IsCoherent (process_full env wiring path repo reindex) (λ _. IsCoherent)
  unfolding process_full build_index
  process_full-Leaves path repo reindex = Leaves-bind _ _ (clear_index-Leaves repo reindex) λ _.
      Leaves-bind _ _ (steady _ (load_packages-Keeps env wiring IsCoherent path)) λ pkgs.
        Leaves-bind _ _ (Leaves-wrapping _ _ (process_files-Leaves repo.id path pkgs none)) λ files.
          Leaves-bind _ _
            (Leaves-wrapping _ _
              (extract_and_save-Leaves env repo.id files IsCoherent-Extends pkgs))
            λ symbols. Leaves-known _ _ (edges_and_chunks repo.id files files symbols _ pkgs)

  rebuild_changed-Leaves :
      (path : String) (repo : Repository) (changed : List String) (kept : Dict File)
      → Leaves IsCoherent IsCoherent
          (rebuild_changed env wiring path repo changed kept)
          (λ _. IsCoherent)
  unfolding rebuild_changed
  rebuild_changed-Leaves path repo changed kept =
      Leaves-bind _ _ (steady _ (load_packages-Keeps env wiring IsCoherent path)) λ pkgs.
        Leaves-bind _ _ (Leaves-wrapping _ _ (process_files-Leaves repo.id path pkgs _)) λ files.
          Leaves-bind _ _
            (Leaves-wrapping _ _
              (extract_and_save-Leaves env repo.id files IsCoherent-Extends pkgs))
            λ symbols. Leaves-known _ _ λ of.
              Leaves-bind _ _
                (Leaves-Keeps _ (Keeps-wrapping _ _ (query-Keeps env (Indexed symbols) _))
                  (λ db i. i.0))
                (λ all_symbols. edges_and_chunks repo.id files _ symbols _ pkgs of)

  discard_and_rebuild-Leaves :
      (path : String) (repo : Repository) (changed removed : List String) (existing : List File)
      → Leaves IsCoherent IsCoherent
          (discard_and_rebuild env wiring path repo changed removed existing)
          (λ _. IsCoherent)
  discard_and_rebuild-Leaves path repo [] [] existing = Leaves-pure tt (λ db c. c)
  discard_and_rebuild-Leaves path repo [] (x ∷ removed) existing =
      Leaves-bind _ _
        (steady _ (discard-Keeps env wiring IsCoherent IsCoherent-Survives (x ∷ removed) _))
        (rebuild_changed-Leaves path repo [])
  discard_and_rebuild-Leaves path repo (p ∷ changed) removed existing =
      Leaves-bind _ _
        (steady _
          (discard-Keeps env wiring IsCoherent IsCoherent-Survives (p ∷ changed ++ removed) _))
        (rebuild_changed-Leaves path repo (p ∷ changed))

  process_incremental-Leaves :
      (path : String) (repo : Repository) (input : RepositoryInput)
      → Leaves IsCoherent IsCoherent
          (process_incremental env wiring path repo input)
          (λ _. IsCoherent)
  unfolding process_incremental
  process_incremental-Leaves path repo input =
      Leaves-bind _ _ (steady _ (Keeps-wrapping _ _ (query-Keeps env IsCoherent _))) λ existing.
        Leaves-if _ _ _ (process_full-Leaves path repo true)
          (discard_and_rebuild-Leaves path repo _ _ existing)

  process_existing-Leaves :
      (path : String) (input : RepositoryInput) (repo : Repository) (existing : Option Repository)
      → Leaves IsCoherent IsCoherent
          (process_existing env wiring path input repo existing)
          (λ _. IsCoherent)
  process_existing-Leaves path input repo none = process_full-Leaves path repo false
  process_existing-Leaves path input repo (some _) =
      Leaves-if _ _ _ (process_incremental-Leaves path repo input)
        (process_full-Leaves path repo true)

  process_repository-Leaves :
      (path : String) (input : RepositoryInput)
      → Leaves IsCoherent IsCoherent (process_repository env wiring path input) (λ _. IsCoherent)
  unfolding process_repository upsert_repository_record
  process_repository-Leaves path input =
      Leaves-bind _ _ (steady _ (Keeps-wrapping _ _ (query-Keeps env IsCoherent _))) λ existing.
        Leaves-bind _ _
          (steady _ (
            upsert-Keeps env wiring IsCoherent IsCoherent-Survives.registers
              IsCoherent-Survives.updates path input existing))
          (λ repo. process_existing-Leaves path input repo existing)

  -- An index run, full or incremental, keeps each chunk pointing at a symbol of its own file and
  -- repository, whatever fails on the way.
  pub process_repository-IsCoherent :
      (path : String) (input : RepositoryInput) (w : World)
      → IsCoherent w.db
      → IsCoherent (process_repository env wiring path input w).1.db
  process_repository-IsCoherent path input =
      Leaves-end _ (process_repository-Leaves path input) (λ _ db c. c)
