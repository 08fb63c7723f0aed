-- ===== src/Pipeline/Growth.antt =====
-- Properties of the database that insertions keep, along the indexing code of
-- internal/usecase/analysis/analysisPipeline.go.
pub mod Sources
pub mod Edges
pub mod Chunks
use Sources.{process_files-Keeps, extract_and_save-Keeps}
use Edges.{build_and_save_calls-Keeps, build_and_save_imports-Keeps}
use Chunks.{process_file-Keeps}
use synthy.Prelude.{String, List, [], ◌∷◌, Dict}
use synthy.Exec.{◌>>=◌}
use synthy.World.Keeps.{Keeps, Keeps-pure, Keeps-raise, Keeps-if, Keeps-bind, Keeps-wrapping}
use synthy.Model.{Repository, File, Symbol, CodeChunk}
use synthy.Db.{Db}
use synthy.World.{Env}
use synthy.World.Growth.{
  OnDb, Extends, Grows, packages_load-Keeps, query-Keeps, publish_embedding-Keeps,
}
use synthy.Packages.{Package}
use synthy.Vectors.{Wiring}
use synthy.Pipeline.{
  some_packages, load_packages, build_edges, publish_chunks, chunk_and_publish, rebuild_changed,
}

module _ (env : Env) (wiring : Wiring) (Q : Db → Type 0) where
  some_packages-Keeps : (pkgs : List Package) → Keeps (OnDb Q) (some_packages env wiring pkgs)
  some_packages-Keeps [] = Keeps-raise _
  some_packages-Keeps (p ∷ pkgs) = Keeps-pure _

  pub load_packages-Keeps : (path : String) → Keeps (OnDb Q) (load_packages env wiring path)
  unfolding load_packages
  load_packages-Keeps path =
      Keeps-bind _ _ (Keeps-wrapping _ _ (packages_load-Keeps env Q path)) some_packages-Keeps

  pub build_edges-Keeps :
      Extends Q
      → (id : String) (files : Dict File) (symbols : Dict Symbol) (pkgs : List Package)
      → Keeps (OnDb Q) (build_edges env wiring id files symbols pkgs)
  unfolding build_edges
  build_edges-Keeps g id files symbols pkgs =
      Keeps-bind _ _ (Keeps-wrapping _ _ (build_and_save_calls-Keeps env Q g id files symbols pkgs))
        (λ _.
          Keeps-bind _ _ (Keeps-wrapping _ _ (build_and_save_imports-Keeps env Q g id files pkgs))
            (λ _. Keeps-pure tt))

  pub publish_chunks-Keeps :
      (id : String) (chunks : List CodeChunk) → Keeps (OnDb Q) (publish_chunks env wiring id chunks)
  unfolding publish_chunks
  publish_chunks-Keeps id [] = Keeps-pure tt
  publish_chunks-Keeps id (c ∷ chunks) =
      Keeps-if _ _ _
        (Keeps-bind _ _ (Keeps-wrapping _ _ (publish_embedding-Keeps env Q _))
          (λ _. publish_chunks-Keeps id chunks))
        (publish_chunks-Keeps id chunks)

  pub chunk_and_publish-Keeps :
      Grows Q
      → (id : String) (symbols : List Symbol) (files : Dict File)
      → Keeps (OnDb Q) (chunk_and_publish env wiring id symbols files)
  unfolding chunk_and_publish
  chunk_and_publish-Keeps g id symbols [] = Keeps-pure tt
  chunk_and_publish-Keeps g id symbols ((path, f) ∷ files) =
      Keeps-bind _ _ (Keeps-wrapping _ _ (process_file-Keeps env Q id f.id path _ g)) (λ chunks.
        Keeps-bind _ _ (publish_chunks-Keeps id chunks)
          (λ _. chunk_and_publish-Keeps g id symbols files))

  pub rebuild_changed-Keeps :
      Grows Q
      → (path : String) (repo : Repository) (changed : List String) (kept : Dict File)
      → Keeps (OnDb Q) (rebuild_changed env wiring path repo changed kept)
  unfolding rebuild_changed
  rebuild_changed-Keeps g path repo changed kept = Keeps-bind _ _ (load_packages-Keeps path) λ pkgs.
      Keeps-bind _ _ (Keeps-wrapping _ _ (process_files-Keeps env Q g.others repo.id path pkgs _))
        λ new_files.
          Keeps-bind _ _
            (Keeps-wrapping _ _ (extract_and_save-Keeps env Q g.others repo.id new_files pkgs))
            λ new_symbols. Keeps-bind _ _ (Keeps-wrapping _ _ (query-Keeps env Q _)) λ all_symbols.
              Keeps-bind _ _ (build_edges-Keeps g.others repo.id _ _ pkgs)
                (λ _. chunk_and_publish-Keeps g repo.id new_symbols new_files)
