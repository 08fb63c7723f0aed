-- ===== src/System/Coherent/Consumed.antt =====
-- The consumers of internal/interface/mq that handle chunks, and the chunks' symbols.
use synthy.Prelude.{String, ℕ, Option, none, some}
use synthy.Exec.{attempt}
use synthy.Model.{CodeChunk}
use synthy.Db.Rows.{update_chunk, UpdateChunkRequest}
use synthy.Db.Coherent.{IsCoherent, update_chunk-IsCoherent}
use synthy.World.{
  Env, Embedding, Metadata, InputType, execute, generate_embeddings, generate_summary,
  upsert_embeddings,
}
use synthy.World.Growth.{execute-Keeps, query-Keeps, vector_call-Keeps}
use synthy.World.Steady.{
  Steady, Steady-pure, Steady-crash, Steady-attempt, Steady-bind, Keeps-Steady,
}
use synthy.Consumers.Steady.{fail-Steady, ack-Steady}
use synthy.Consumers.{
  embedding_updated, vector_upserted, chunk_embedded, embed_found, handle_embedding,
  summary_updated, chunk_summarised, summarise_found, handle_summary, ChunkDelivery,
}

module _ (env : Env) where
  amend-Steady :
      (id : String) (req : UpdateChunkRequest)
      → Steady IsCoherent (attempt (execute env (update_chunk id req)))
  amend-Steady id req = Steady-attempt _ (
      Keeps-Steady _
        (execute-Keeps env IsCoherent (update_chunk id req) (update_chunk-IsCoherent id req)))

  generate_embeddings-Steady :
      (text : String) (kind : InputType) → Steady IsCoherent (generate_embeddings env text kind)
  unfolding generate_embeddings
  generate_embeddings-Steady text kind = record { at = λ w i. i }

  generate_summary-Steady : (text : String) → Steady IsCoherent (generate_summary env text)
  unfolding generate_summary
  generate_summary-Steady text = record { at = λ w i. i }

  upsert_embeddings-Steady :
      (e : Embedding) (m : Metadata) (namespace : String)
      → Steady IsCoherent (upsert_embeddings env e m namespace)
  unfolding upsert_embeddings
  upsert_embeddings-Steady e m namespace = record {
    at = λ w i.
        (Steady-bind _ _ (Keeps-Steady _ (vector_call-Keeps env IsCoherent _))
            (λ _. Steady-pure _)).at
          w i;
  }

  embedding_updated-Steady :
      (tag : ℕ) (id : String) (done : Option (Unit {0}))
      → Steady IsCoherent (embedding_updated env tag id done)
  embedding_updated-Steady tag id (some _) = ack-Steady env tag
  embedding_updated-Steady tag id none =
      Steady-bind _ _ (Steady-attempt _ (Keeps-Steady _ (vector_call-Keeps env IsCoherent _)))
        (λ _. fail-Steady env tag)

  vector_upserted-Steady :
      (tag : ℕ) (c : CodeChunk) (id : Option String)
      → Steady IsCoherent (vector_upserted env tag c id)
  vector_upserted-Steady tag c none = fail-Steady env tag
  vector_upserted-Steady tag c (some id) =
      Steady-bind _ _ (amend-Steady c.id _) (embedding_updated-Steady tag id)

  chunk_embedded-Steady :
      (tag : ℕ) (c : CodeChunk) (e : Option Embedding)
      → Steady IsCoherent (chunk_embedded env tag c e)
  chunk_embedded-Steady tag c none = fail-Steady env tag
  chunk_embedded-Steady tag c (some e) =
      Steady-bind _ _ (Steady-attempt _ (upsert_embeddings-Steady e _ _))
        (vector_upserted-Steady tag c)

  embed_found-Steady :
      (tag : ℕ) (found : Option (Option CodeChunk)) → Steady IsCoherent (embed_found env tag found)
  embed_found-Steady tag none = fail-Steady env tag
  embed_found-Steady tag (some none) = Steady-crash
  embed_found-Steady tag (some (some c)) =
      Steady-bind _ _ (Steady-attempt _ (generate_embeddings-Steady _ _))
        (chunk_embedded-Steady tag c)

  pub handle_embedding-Steady : (msg : ChunkDelivery) → Steady IsCoherent (handle_embedding env msg)
  unfolding handle_embedding
  handle_embedding-Steady msg =
      Steady-bind _ _ (Steady-attempt _ (Keeps-Steady _ (query-Keeps env IsCoherent _)))
        (embed_found-Steady msg.tag)

  summary_updated-Steady :
      (tag : ℕ) (done : Option (Unit {0})) → Steady IsCoherent (summary_updated env tag done)
  summary_updated-Steady tag none = fail-Steady env tag
  summary_updated-Steady tag (some _) = ack-Steady env tag

  chunk_summarised-Steady :
      (tag : ℕ) (c : CodeChunk) (text : Option String)
      → Steady IsCoherent (chunk_summarised env tag c text)
  chunk_summarised-Steady tag c none = fail-Steady env tag
  chunk_summarised-Steady tag c (some text) =
      Steady-bind _ _ (amend-Steady c.id _) (summary_updated-Steady tag)

  summarise_found-Steady :
      (tag : ℕ) (found : Option (Option CodeChunk))
      → Steady IsCoherent (summarise_found env tag found)
  summarise_found-Steady tag none = fail-Steady env tag
  summarise_found-Steady tag (some none) = Steady-crash
  summarise_found-Steady tag (some (some c)) =
      Steady-bind _ _ (Steady-attempt _ (generate_summary-Steady _)) (chunk_summarised-Steady tag c)

  pub handle_summary-Steady : (msg : ChunkDelivery) → Steady IsCoherent (handle_summary env msg)
  unfolding handle_summary
  handle_summary-Steady msg =
      Steady-bind _ _ (Steady-attempt _ (Keeps-Steady _ (query-Keeps env IsCoherent _)))
        (summarise_found-Steady msg.tag)
