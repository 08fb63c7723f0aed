-- ===== src/Pipeline/Ordering.antt =====
-- The order in which rows and their vectors are deleted; without its row nothing knows a vector's id.
use synthy.Prelude.{
  String, ◌≡◌, refl, sym, ap, ◌∙◌, ◌⊎◌, inl, inr, true, List, ◌++◌, some, append-nil, Option-cases,
}
use synthy.Exec.{Exec, Result, ok, err, panic, wrapping, ◌>>=◌, ◌>>◌}
use synthy.Model.{File, CodeChunk}
use synthy.Db.{Db}
use synthy.Db.Rows.{get_chunks_by_file_id, get_chunks_by_repository_id}
use synthy.World.{World, Env, query, execute, ticked}
use synthy.Vectors.{
  Wiring, embedding_ids, delete_vectors_for_chunks, delete_file_vectors, delete_repository_vectors,
}
use synthy.Vectors.Batches.{Deleted, deletions, joined, delete_vectors_for_chunks-Deleted}
use synthy.Pipeline.{clear_index, discard_file}

-- Either no row changed, or the index had accepted the deletion of all the ids.
abbrev pub DeletedBefore : List String → World → World → Type 0
DeletedBefore ids w after =
    (after.db ≡ w.db)
    ⊎ ((batches : List (List String)) × (after.requests ≡ w.requests ++ deletions batches)
        × (joined batches ≡ ids))

module _ (env : Env) (wiring : Wiring) (wired : wiring.vectors ≡ true) where
  -- The vectors of some chunks and then a statement.
  abbrev then_rows : List CodeChunk → String → (Db → Db) → Exec World (Unit {0})
  then_rows chunks context f =
      delete_vectors_for_chunks env wiring chunks >> wrapping context (execute env f)

  all_joined :
      (ids : List String) (w v : World)
      → (d : Deleted 1000 ids w (ok tt, v)) → joined d.batches ≡ ids
  all_joined ids w v d = elim d.complete [
    | inl none_left ↦
        sym (append-nil (joined d.batches))
        ∙ ap (◌++◌ (joined d.batches)) (sym none_left)
        ∙ d.in_order
    | inr (e, failed) ↦ cc
  ]

  rows_after :
      (context : String) (f : Db → Db) (ids : List String) (w v : World) (r : Result (Unit {0}))
      → Deleted 1000 ids w (r, v)
      → DeletedBefore ids w (((λ (s : World). (r, s)) >> wrapping context (execute env f)) v).1
  unfolding execute ◌>>=◌
  rows_after context f ids w v (ok tt) d = elim (Option-cases (env.db_fault v.tick)) [
    | inl fine ↦ rw fine (inr (d.batches, d.asked, all_joined ids w v d))
    | inr (e, failed) ↦ rw failed (inl d.same_db)
  ]
  rows_after context f ids w v (err e) d = inl d.same_db
  rows_after context f ids w v panic d = inl d.same_db

  listed_then_rows :
      (list : Db → List CodeChunk) (context : String) (f : Db → Db) (w : World)
      → DeletedBefore
          (embedding_ids (list w.db))
          w
          (((wrapping "list chunks for vector cleanup" (query env list)
                >>= delete_vectors_for_chunks env wiring)
              >> wrapping context (execute env f))
            w).1
  unfolding query wrapping ◌>>=◌
  listed_then_rows list context f w = elim (Option-cases (env.db_fault w.tick)) [
    | inl fine ↦
        let out = delete_vectors_for_chunks env wiring (list w.db) (ticked env w) in
        rw fine (
          rows_after context f (embedding_ids (list w.db)) (ticked env w) out.1 out.0
            (delete_vectors_for_chunks-Deleted env wiring (list w.db) (ticked env w) wired))
    | inr (e, failed) ↦ rw failed (inl refl)
  ]

  -- Clearing a repository's index leaves the database as it was, unless the index has accepted
  -- requests to delete exactly the embedding ids of all the repository's chunks, made in batches
  -- and nothing else being asked.
  pub clear_index_order :
      (id : String) (w : World)
      → DeletedBefore
          (embedding_ids (get_chunks_by_repository_id id w.db))
          w
          (clear_index env wiring id w).1
  unfolding clear_index delete_repository_vectors
  clear_index_order id w = listed_then_rows (get_chunks_by_repository_id id) _ _ w

  -- So does discarding a file, with the embedding ids of the file's chunks.
  pub discard_file_order :
      (f : File) (w : World)
      → DeletedBefore
          (embedding_ids (get_chunks_by_file_id f.id w.db))
          w
          (discard_file env wiring (some f) w).1
  unfolding delete_file_vectors
  discard_file_order f w = listed_then_rows (get_chunks_by_file_id f.id) _ _ w
