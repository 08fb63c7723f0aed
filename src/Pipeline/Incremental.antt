-- ===== src/Pipeline/Incremental.antt =====
-- processIncremental of internal/usecase/analysis/analysisPipeline.go and a chunk of some file.
use synthy.Prelude.{
  String, ◌≡◌, refl, ◌≢◌, ◌⊎◌, inl, inr, arith, true, false, List, [], ◌∷◌, ◌++◌, Option, none,
  some, Dict, lookup, insert, erase, lookup-insert, lookup-erase, Member, Member-keep, contains,
  exists, keep, ◌==◌, ==_iff, Bool,
}
use synthy.Exec.{Error, pure, wrapping, ◌>>=◌}
use synthy.World.Keeps.{Keeps, Keeps-pure, Keeps-bind, Keeps-wrapping, Keeps-weaken}
use synthy.Model.{Repository, File, CodeChunk}
use synthy.Db.{Db, delete_file_by_id, delete_cascade, delete_files_by_repository_id}
use synthy.Db.Rows.{get_files_by_repository_id}
use synthy.World.{World, Env, query, ticked}
use synthy.World.Growth.{OnDb, execute-Keeps}
use synthy.Paths.{is_abs}
use synthy.Vectors.{Wiring}
use synthy.Vectors.Cleanup.{delete_file_vectors-Keeps, delete_repository_vectors-Keeps}
use synthy.Pipeline.{
  RepositoryInput, go_files, by_rel_path, discard_file, discard, discard_and_rebuild,
  process_incremental, process_full, clear_index,
}
use synthy.Pipeline.Growth.{rebuild_changed-Keeps}
use synthy.Pipeline.Run.{build_index-Keeps}
use synthy.Pipeline.Untouched.{
  Stored, Stored-Grows, Owned, Elsewhere, Outside, delete_cascade-Owned,
}

-- The files of `byRelPath` are among the given ones, under their own paths.
lookup-by_rel_path :
    (path : String) (f : File) (files : List File) (m : Dict File)
    → lookup path (by_rel_path files m) ≡ some f
    → (Member f files × (f.path ≡ path)) ⊎ (lookup path m ≡ some f)
unfolding by_rel_path
lookup-by_rel_path path f [] m e = inr e
lookup-by_rel_path path f (g ∷ files) m e =
    ground
      (arith, lookup-by_rel_path path f files (insert g.path g m) e, lookup-insert g.path path g m)

module _ (env : Env) (wiring : Wiring) (c : CodeChunk) where
  -- None of the files that the map has under the paths is the chunk's own.
  abbrev Spares : List String → Dict File → Type 0
  Spares paths files =
      (path : String) (f : File)
      → contains path paths ≡ true
      → lookup path files ≡ some f
      → f.id ≢ c.file_id

  delete_file-Owned :
      (id : String) (db : Db) → id ≢ c.file_id → Owned c db → Owned c (delete_file_by_id id db)
  unfolding delete_file_by_id
  delete_file-Owned id db other o =
      delete_cascade-Owned c (λ f. f.id == id) db o (λ f m e q. ground (arith, e, other, q))

  discard_file-Owned :
      (found : Option File)
      → ((f : File) → found ≡ some f → f.id ≢ c.file_id)
      → Keeps (OnDb (Owned c)) (discard_file env wiring found)
  discard_file-Owned none other = Keeps-pure tt
  discard_file-Owned (some f) other =
      Keeps-bind _ _ (delete_file_vectors-Keeps env (Owned c) wiring f.id) λ _. Keeps-wrapping _ _ (
        execute-Keeps env (Owned c) (delete_file_by_id f.id)
          (λ db. delete_file-Owned f.id db (other f refl)))

  discard-Owned :
      (paths : List String) (files : Dict File)
      → Spares paths files
      → Keeps (OnDb (Owned c)) (discard env wiring paths files)
  unfolding discard contains exists
  discard-Owned [] files spares = Keeps-pure files
  discard-Owned (path ∷ paths) files spares =
      Keeps-bind _ _
        (discard_file-Owned (lookup path files) (λ f e. spares path f (ground arith) e))
        (λ _.
          discard-Owned paths (erase path files)
            (λ p f m e. spares p f (ground arith) (ground (arith, lookup-erase path p files))))

  Owned→Stored : (db : Db) → Owned c db → Stored c db
  Owned→Stored db o = o.stored

  Elsewhere-Spares :
      (input : RepositoryInput) (repo : String) (db : Db)
      → Elsewhere c (go_files input.changed_paths ++ go_files input.removed_paths) repo db
      → Spares
          (go_files input.changed_paths ++ go_files input.removed_paths)
          (by_rel_path (get_files_by_repository_id repo db) [])
  unfolding get_files_by_repository_id lookup
  Elsewhere-Spares input repo db elsewhere path f m e =
      let kept = keep (λ (g : File). g.repository_id == repo) db.files in
      elim (lookup-by_rel_path path f kept [] e) [
        | inl found ↦
            let (member, mine) = (Member-keep _ f db.files).0 found.0 in
            elsewhere f member ((==_iff f.repository_id repo).0 mine) (rw (found.1) m)
        | inr bad ↦ cc
      ]

  -- A chunk of another repository's file, while the index of this one is cleared.
  abbrev Apart : String → Db → Type 0
  Apart id db = Owned c db × Outside c id db

  clear_index-Apart : (id : String) → Keeps (OnDb (Apart id)) (clear_index env wiring id)
  unfolding clear_index delete_files_by_repository_id delete_cascade
  clear_index-Apart id =
      Keeps-bind _ _ (delete_repository_vectors-Keeps env (Apart id) wiring id) λ _.
        Keeps-wrapping _ _ (
          execute-Keeps env (Apart id) (delete_files_by_repository_id id) λ db (o, outside). (
            delete_cascade-Owned c (λ f. f.repository_id == id) db o
                (λ f m e. outside f m ((==_iff f.repository_id id).0 e)),
            λ f m. outside f ((Member-keep _ f db.files).0 m).0,
          ))

  process_full-Stored :
      (path : String) (repo : Repository) (w : World)
      → Apart repo.id w.db
      → Stored c (process_full env wiring path repo true w).1.db
  unfolding process_full
  process_full-Stored path repo =
      Keeps-weaken _ _ (clear_index-Apart repo.id) (λ v (o, outside). o.stored)
        (λ _. build_index-Keeps env wiring (Stored c) (Stored-Grows c) path repo)

  rebuild_after :
      (path : String) (repo : Repository) (changed removed : List String) (existing : List File)
      → Spares (changed ++ removed) (by_rel_path existing [])
      → (w : World) → Owned c w.db
      → Stored c (discard_and_rebuild env wiring path repo changed removed existing w).1.db
  unfolding pure
  rebuild_after path repo [] [] existing spares w o = o.stored
  rebuild_after path repo [] (r ∷ removed) existing spares w o =
      Keeps-weaken _ _ (discard-Owned (r ∷ removed) _ spares) (λ v. Owned→Stored v.db)
        (rebuild_changed-Keeps env wiring (Stored c) (Stored-Grows c) path repo []) w o
  rebuild_after path repo (p ∷ changed) removed existing spares w o =
      Keeps-weaken _ _ (discard-Owned (p ∷ changed ++ removed) _ spares) (λ v. Owned→Stored v.db)
        (rebuild_changed-Keeps env wiring (Stored c) (Stored-Grows c) path repo (p ∷ changed)) w o

  incremental_after :
      (path : String) (repo : Repository) (input : RepositoryInput) (w : World) (absolute : Bool)
      → exists (λ f. is_abs f.path) (get_files_by_repository_id repo.id w.db) ≡ absolute
      → (absolute ≡ false) ⊎ Outside c repo.id w.db
      → Owned c w.db
      → Elsewhere c (go_files input.changed_paths ++ go_files input.removed_paths) repo.id w.db
      → (fault : Option Error) → env.db_fault w.tick ≡ fault
      → Stored c (process_incremental env wiring path repo input w).1.db
  unfolding process_incremental query wrapping ◌>>=◌
  incremental_after path repo input w absolute e spared o elsewhere (some f) q = rw q (o.stored)
  incremental_after path repo input w false e spared o elsewhere none q =
      rw (q, e)
        (rebuild_after path repo _ _ (get_files_by_repository_id repo.id w.db)
          (Elsewhere-Spares input repo.id w.db elsewhere) (ticked env w) o)
  incremental_after path repo input w true e (inl relative) o elsewhere none q = cc
  incremental_after path repo input w true e (inr outside) o elsewhere none q =
      rw (q, e) (process_full-Stored path repo (ticked env w) (o, outside))

  -- An incremental index keeps the chunk's row as it is, whatever the outside world answers and
  -- whether the index succeeds or fails on the way, if the chunk is stored, its symbol belongs to its
  -- file, and its file is no file row of this repository under a changed or removed Go path of the
  -- push; but where a file row of this repository has an absolute path, only if the chunk's file is
  -- no file row of this repository at all.
  pub process_incremental_keeps_chunk :
      (path : String) (repo : Repository) (input : RepositoryInput) (w : World)
      → (exists (λ f. is_abs f.path) (get_files_by_repository_id repo.id w.db) ≡ false)
        ⊎ Outside c repo.id w.db
      → Owned c w.db
      → Elsewhere c (go_files input.changed_paths ++ go_files input.removed_paths) repo.id w.db
      → Member c (process_incremental env wiring path repo input w).1.db.chunks
  process_incremental_keeps_chunk path repo input w spared o elsewhere =
      incremental_after path repo input w _ refl spared o elsewhere (env.db_fault w.tick) refl
