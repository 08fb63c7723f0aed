-- ===== src/Consumers.antt =====
-- internal/interface/mq: the two consumers that handle chunks, one delivery at a time. A missing chunk
-- comes from the repository as a nil pointer without an error, and `chunk.Content` then panics.
pub mod Settled
pub mod Steady
pub mod Summary
use synthy.Prelude.{String, ℕ, false, List, [], ◌∷◌, Option, none, some}
use synthy.Exec.{Exec, pure, crash, attempt, ◌>>=◌, ◌>>◌}
use synthy.Model.{CodeChunk}
use synthy.Db.Rows.{get_chunk_by_id, update_chunk, UpdateChunkRequest}
use synthy.World.{
  World, Env, Embedding, Metadata, document_input, acked, nacked, query, execute, vector_call,
  delete_vectors, default_namespace, generate_embeddings, generate_summary, upsert_embeddings,
  settle_delivery,
}

-- ProcessEmbeddingMessage and ProcessSummaryMessage
pub record ChunkDelivery : Type 0 where
  pub tag : ℕ
  pub chunk_id : String
  pub repository_id : String

-- the vector's metadata, from the chunk
abbrev pub metadata_of : CodeChunk → Metadata
metadata_of c = record {
  chunk_id = c.id;
  repository_id = c.repository_id;
  file_id = c.file_id;
  symbol_id = c.symbol_id;
  chunk_type = c.type;
  language = c.language;
  start_line = c.start_line;
  end_line = c.end_line;
}

abbrev pub set_embedding_id : String → UpdateChunkRequest
set_embedding_id id = record { embedding_id = some id; summary = none }

abbrev pub set_summary : String → UpdateChunkRequest
set_summary text = record { embedding_id = none; summary = some text }

module _ (env : Env) where
  -- `fail` of nack.go: a failure to reject is only logged.
  unfoldable pub fail : ℕ → Exec World (Unit {0})
  unfolding settle_delivery
  fail tag = attempt (settle_delivery env (nacked tag false)) >> pure tt

  unfoldable pub ack : ℕ → Exec World (Unit {0})
  unfolding settle_delivery
  ack tag = attempt (settle_delivery env (acked tag)) >> pure tt

  -- The vector is in the index; if the chunk cannot point at it, it is dropped again.
  abbrev pub embedding_updated : ℕ → String → Option (Unit {0}) → Exec World (Unit {0})
  embedding_updated tag id (some _) = ack tag
  embedding_updated tag id none =
      attempt (vector_call env (delete_vectors (id ∷ []) default_namespace)) >> fail tag

  abbrev pub vector_upserted : ℕ → CodeChunk → Option String → Exec World (Unit {0})
  vector_upserted tag chunk none = fail tag
  vector_upserted tag chunk (some id) = do
    updated ← attempt (execute env (update_chunk chunk.id (set_embedding_id id)))
    embedding_updated tag id updated

  abbrev pub chunk_embedded : ℕ → CodeChunk → Option Embedding → Exec World (Unit {0})
  chunk_embedded tag chunk none = fail tag
  chunk_embedded tag chunk (some e) = do
    id ← attempt (upsert_embeddings env e (metadata_of chunk) default_namespace)
    vector_upserted tag chunk id

  abbrev pub embed_found : ℕ → Option (Option CodeChunk) → Exec World (Unit {0})
  embed_found tag none = fail tag
  embed_found tag (some none) = crash
  embed_found tag (some (some chunk)) = do
    e ← attempt (generate_embeddings env chunk.content document_input)
    chunk_embedded tag chunk e

  -- The loop body of EmbeddingEventController.Start.
  unfoldable pub handle_embedding : ChunkDelivery → Exec World (Unit {0})
  handle_embedding msg = do
    found ← attempt (query env (get_chunk_by_id msg.chunk_id))
    embed_found msg.tag found

  abbrev pub summary_updated : ℕ → Option (Unit {0}) → Exec World (Unit {0})
  summary_updated tag none = fail tag
  summary_updated tag (some _) = ack tag

  abbrev pub chunk_summarised : ℕ → CodeChunk → Option String → Exec World (Unit {0})
  chunk_summarised tag chunk none = fail tag
  chunk_summarised tag chunk (some text) = do
    updated ← attempt (execute env (update_chunk chunk.id (set_summary text)))
    summary_updated tag updated

  abbrev pub summarise_found : ℕ → Option (Option CodeChunk) → Exec World (Unit {0})
  summarise_found tag none = fail tag
  summarise_found tag (some none) = crash
  summarise_found tag (some (some chunk)) = do
    text ← attempt (generate_summary env chunk.content)
    chunk_summarised tag chunk text

  -- The loop body of SummaryEventController.Start.
  unfoldable pub handle_summary : ChunkDelivery → Exec World (Unit {0})
  handle_summary msg = do
    found ← attempt (query env (get_chunk_by_id msg.chunk_id))
    summarise_found msg.tag found

  -- `for msg := range messages`: a panic ends the loop.
  unfoldable pub consume :
      {A : Type 0} → (A → Exec World (Unit {0})) → List A → Exec World (Unit {0})
  consume handler [] = pure tt
  consume handler (msg ∷ msgs) = handler msg >> consume handler msgs
