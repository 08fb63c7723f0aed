-- ===== src/Vectors/Cleanup.antt =====
-- Removing vectors and properties of the database.
use synthy.Prelude.{ℕ, String, zero, suc, List, [], ◌∷◌}
use synthy.World.Keeps.{Keeps, Keeps-pure, Keeps-if, Keeps-bind, Keeps-wrapping}
use synthy.Model.{CodeChunk}
use synthy.Db.{Db}
use synthy.World.{Env}
use synthy.World.Growth.{OnDb, vector_call-Keeps, query-Keeps}
use synthy.Vectors.{
  Wiring, pinecone_delete_batch, embedding_ids, delete_batches, delete_vectors_for_chunks,
  delete_repository_vectors, delete_file_vectors,
}

module _ (env : Env) (Q : Db → Type 0) where
  delete_batches-Keeps :
      (size fuel : ℕ) (ids : List String) → Keeps (OnDb Q) (delete_batches env size fuel ids)
  unfolding delete_batches
  delete_batches-Keeps size zero ids = Keeps-pure tt
  delete_batches-Keeps size (suc fuel) [] = Keeps-pure tt
  delete_batches-Keeps size (suc fuel) (id ∷ ids) =
      Keeps-bind _ _ (Keeps-wrapping _ _ (vector_call-Keeps env Q _))
        (λ _. delete_batches-Keeps size fuel _)

  pub delete_vectors-Keeps :
      (wiring : Wiring) (chunks : List CodeChunk)
      → Keeps (OnDb Q) (delete_vectors_for_chunks env wiring chunks)
  unfolding delete_vectors_for_chunks
  delete_vectors-Keeps wiring chunks =
      Keeps-if _ _ _ (delete_batches-Keeps pinecone_delete_batch _ (embedding_ids chunks))
        (Keeps-pure tt)

  pub delete_repository_vectors-Keeps :
      (wiring : Wiring) (id : String) → Keeps (OnDb Q) (delete_repository_vectors env wiring id)
  unfolding delete_repository_vectors
  delete_repository_vectors-Keeps wiring id =
      Keeps-bind _ _ (Keeps-wrapping _ _ (query-Keeps env Q _)) (delete_vectors-Keeps wiring)

  pub delete_file_vectors-Keeps :
      (wiring : Wiring) (id : String) → Keeps (OnDb Q) (delete_file_vectors env wiring id)
  unfolding delete_file_vectors
  delete_file_vectors-Keeps wiring id =
      Keeps-bind _ _ (Keeps-wrapping _ _ (query-Keeps env Q _)) (delete_vectors-Keeps wiring)
