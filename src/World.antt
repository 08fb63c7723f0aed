-- ===== src/World.antt =====
-- What the code acts on: the database, and the record of what was asked of the vector index and of
-- the queue. Each external call takes one tick; whether it fails, and what it returns, is for the
-- environment to say at that tick. A statement that fails has changed nothing.
pub mod Outside
pub mod Keeps
pub mod Safe
pub mod Growth
pub mod Leaves
pub mod Steady
pub mod Batch
pub mod NewRow
pub use Outside.{
  default_namespace, Embedding, InputType, document_input, query_input, Metadata, VectorRequest,
  upsert_vector, delete_vectors, EmbeddingRequest, Settlement, acked, nacked, World, Url,
  ApiFailure, ApiReply, returned_api, failed_api, ApiRepository, Env,
}
use synthy.Prelude.{String, ℕ, suc, List, [], ◌∷◌, ◌++◌, Option, none, some}
use synthy.Exec.{
  Error, message, wrap, Result, ok, err, Exec, pure, ◌>>=◌, ◌>>◌, wrapping, attempt, of_reply,
}
use synthy.Db.{Db}
use synthy.Packages.{Package, ParsedFile}

-- An open transaction: the world as its statements see it, and the database that tx.Rollback goes back
-- to, which is there until tx.Commit succeeds.
pub record Transaction : Type 0 where
  pub world : World
  pub before : Option Db

module _ (env : Env) where
  abbrev pub ticked : World → World
  ticked w = record w { tick = suc w.tick }

  abbrev pub answer : {A : Type 0} → Option Error → A → Result A
  answer none a = ok a
  answer (some e) a = err e

  -- generateID
  unfoldable pub generate_id : Exec World String
  generate_id w = (of_reply (env.random_id w.tick), ticked w)

  unfoldable pub time_now : Exec World ℕ
  time_now w = (ok (env.now w.tick), ticked w)

  unfoldable pub read_file : String → Exec World String
  read_file path w = (of_reply (env.read_file w.tick path), ticked w)

  unfoldable pub parse_file : String → Exec World ParsedFile
  parse_file path w = (of_reply (env.parse_file w.tick path), ticked w)

  unfoldable pub packages_load : String → Exec World (List Package)
  packages_load path w = (of_reply (env.load_packages w.tick path), ticked w)

  -- db.Query, db.QueryRow
  unfoldable pub query : {A : Type 0} → (Db → A) → Exec World A
  query f w = (answer (env.db_fault w.tick) (f w.db), ticked w)

  -- what a statement leaves
  abbrev pub settle : Option Error → Option Db → World → Result (Unit {0}) × World
  settle (some e) _ w = (err e, ticked w)
  settle none none w = (err (message "constraint violation"), ticked w)
  settle none (some db) w = (ok tt, record (ticked w) { db = db })

  -- db.Exec, tx.Exec
  unfoldable pub statement : (Db → Option Db) → Exec World (Unit {0})
  statement f w = settle (env.db_fault w.tick) (f w.db) w

  unfoldable pub execute : (Db → Db) → Exec World (Unit {0})
  unfolding statement
  execute f = statement (λ db. some (f db))

  -- tx.Begin
  unfoldable pub begin : Exec World (Unit {0})
  unfolding query
  begin = query (λ _. tt)

  -- A call in the transaction.
  unfoldable pub in_tx : {A : Type 0} → Exec World A → Exec Transaction A
  in_tx m t = let (r, after) = m t.world in (r, record t { world = after })

  -- tx.Commit: what `committing` a transaction leaves
  abbrev pub committing : Option Error → Transaction → Result (Unit {0}) × Transaction
  committing none t = (ok tt, record { world = ticked t.world; before = none })
  committing (some e) t = (err e, record t { world = ticked t.world })

  unfoldable pub commit : Exec Transaction (Unit {0})
  commit t = committing (env.db_fault t.world.tick) t

  -- tx.Rollback, which does nothing after a commit
  abbrev pub rollback : World → Option Db → World
  rollback w none = w
  rollback w (some db) = record w { db = db }

  -- `defer tx.Rollback(ctx)` after tx.Begin
  unfoldable pub transaction : {A : Type 0} → Exec Transaction A → Exec World A
  transaction body w =
      let (r, t) = body (record { world = w; before = some w.db }) in (r, rollback t.world t.before)

  unfoldable pub insert_each {ℓ} :
      {A : Type ℓ} → String → (A → Db → Option Db) → List A → Exec World (Unit {0})
  unfolding statement
  insert_each context insert [] = pure tt
  insert_each context insert (x ∷ xs) =
      let rest = insert_each context insert xs in wrapping context (statement (insert x)) >> rest

  -- InsertSymbols, InsertChunks, InsertCallEdges and InsertImportEdges have this shape.
  unfoldable pub insert_batch {ℓ} :
      {A : Type ℓ} → String → (A → Db → Option Db) → List A → Exec World (Unit {0})
  unfolding insert_each begin in_tx commit transaction
  insert_batch context insert [] = pure tt
  insert_batch context insert (x ∷ xs) = do
    wrapping "begin transaction" begin
    transaction (do in_tx (insert_each context insert (x ∷ xs)); commit)

  -- DeleteVectors of internal/infra/pinecone/repository.go
  abbrev pub accept : Option Error → VectorRequest → World → World
  accept none r w = record (ticked w) { requests = w.requests ++ r ∷ [] }
  accept (some _) r w = ticked w

  unfoldable pub vector_call : VectorRequest → Exec World (Unit {0})
  vector_call r w = (answer (env.vector_fault w.tick) tt, accept (env.vector_fault w.tick) r w)

  abbrev pub enqueue : Option Error → EmbeddingRequest → World → World
  enqueue none r w = record (ticked w) { published = w.published ++ r ∷ [] }
  enqueue (some _) r w = ticked w

  abbrev pub publish_failure : Option Error → Option Error
  publish_failure none = none
  publish_failure (some e) = some (wrap "failed to publish embedding message" e)

  -- PublishEmbedding of internal/infra/rabbimq/embeddingPublisher.go
  unfoldable pub publish_embedding : EmbeddingRequest → Exec World (Unit {0})
  publish_embedding r w = (
    answer (publish_failure (env.publish_fault w.tick)) tt,
    enqueue (env.publish_fault w.tick) r w,
  )

  -- an id and the time for a new row; `none` if there is no id
  abbrev pub stamped : {A : Type 0} → (String → ℕ → A) → Option String → Exec World (Option A)
  stamped make none = pure none
  stamped make (some id) = do now ← time_now; pure (some (make id now))

  unfoldable pub new_row : {A : Type 0} → (String → ℕ → A) → Exec World (Option A)
  unfolding generate_id time_now
  new_row make = do id ← attempt generate_id; stamped make id

  unfoldable pub generate_embeddings : String → InputType → Exec World Embedding
  generate_embeddings text kind w = (of_reply (env.generate_embeddings w.tick text kind), ticked w)

  unfoldable pub generate_summary : String → Exec World String
  generate_summary text w = (of_reply (env.generate_summary w.tick text), ticked w)

  -- UpsertEmbeddings of internal/infra/pinecone/repository.go: the vector's new id
  unfoldable pub upsert_embeddings : Embedding → Metadata → String → Exec World String
  unfolding vector_call
  upsert_embeddings e m namespace w =
      let id = env.random_vector_id w.tick in
      (vector_call (upsert_vector id e m namespace) >> pure id) w

  -- QuerySimilarVectors of internal/infra/pinecone/repository.go
  unfoldable pub query_similar_vectors : Embedding → ℕ → String → Exec World (List String)
  query_similar_vectors e top_k namespace w =
      (of_reply (env.similar_vectors w.tick e top_k namespace), ticked w)

  abbrev pub note : Option Error → Settlement → World → World
  note none s w = record (ticked w) { settled = w.settled ++ s ∷ [] }
  note (some _) s w = ticked w

  -- Ack and Nack of a delivery
  unfoldable pub settle_delivery : Settlement → Exec World (Unit {0})
  settle_delivery s w =
      (answer (env.delivery_fault w.tick) tt, note (env.delivery_fault w.tick) s w)
