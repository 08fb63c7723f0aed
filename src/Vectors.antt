-- ===== src/Vectors.antt =====
-- internal/usecase/analysis/vectors.go: removing the vectors that chunks point at.
pub mod Batches
pub mod Cleanup
use synthy.Prelude.{
  String, ℕ, zero, suc, Bool, List, [], ◌∷◌, Option, none, some, length, take, drop, ◌==◌,
  if◌then◌else◌,
}
use synthy.Exec.{Exec, pure, wrapping, ◌>>=◌, ◌>>◌}
use synthy.Model.{CodeChunk}
use synthy.Db.Rows.{get_chunks_by_file_id, get_chunks_by_repository_id}
use synthy.World.{World, Env, query, vector_call, delete_vectors, default_namespace}

-- The optional parts of AnalysisPipeline: a nil store or publisher is `false`.
pub record Wiring : Type 0 where
  pub vectors : Bool
  pub embedding_publisher : Bool

-- pineconeDeleteBatch
abbrev pub pinecone_delete_batch : ℕ
pinecone_delete_batch = 1000

abbrev pub with_id : Option String → List String → List String
with_id none ids = ids
with_id (some e) ids = if e == "" then ids else e ∷ ids

-- The embedding ids of the chunks that have one.
unfoldable pub embedding_ids : List CodeChunk → List String
embedding_ids [] = []
embedding_ids (c ∷ chunks) = with_id c.embedding_id (embedding_ids chunks)

module _ (env : Env) where
  -- The loop over `start`, with the ids from `start` on; each round takes at least one id, so their
  -- number is fuel enough.
  unfoldable pub delete_batches : ℕ → ℕ → List String → Exec World (Unit {0})
  delete_batches size zero ids = pure tt
  delete_batches size (suc fuel) [] = pure tt
  delete_batches size (suc fuel) (id ∷ ids) = do
    wrapping "delete vectors"
        (vector_call env (delete_vectors (take size (id ∷ ids)) default_namespace))
    delete_batches size fuel (drop size (id ∷ ids))

  unfoldable pub delete_vectors_for_chunks : Wiring → List CodeChunk → Exec World (Unit {0})
  unfolding delete_batches embedding_ids
  delete_vectors_for_chunks wiring chunks =
      if wiring.vectors
      then delete_batches pinecone_delete_batch (length (embedding_ids chunks))
          (embedding_ids chunks)
      else pure tt

  unfoldable pub delete_repository_vectors : Wiring → String → Exec World (Unit {0})
  delete_repository_vectors wiring repository_id = do
    chunks ←
        wrapping "list chunks for vector cleanup"
          (query env (get_chunks_by_repository_id repository_id))
    delete_vectors_for_chunks wiring chunks

  unfoldable pub delete_file_vectors : Wiring → String → Exec World (Unit {0})
  delete_file_vectors wiring file_id = do
    chunks ← wrapping "list chunks for vector cleanup" (query env (get_chunks_by_file_id file_id))
    delete_vectors_for_chunks wiring chunks
