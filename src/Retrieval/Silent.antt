-- ===== src/Retrieval/Silent.antt =====
-- What retrieval leaves alone.
use synthy.Prelude.{String, ℕ, ◌≡◌, ◌≢◌, inl, inr, Bool-cases, refl, arith, List, [], ◌∷◌, ◌==◌}
use synthy.Exec.{ok, err, panic, Result}
use synthy.Model.{CodeChunk}
use synthy.Db.{Db}
use synthy.World.{
  World, Env, Embedding, InputType, query, generate_embeddings, query_similar_vectors,
}
use synthy.World.Safe.{Safe, Safe-pure, Safe-if, Safe-wrapping, Safe-bind}
use synthy.Github.Client.Silent.{kept}
use synthy.Retrieval.{
  ℤ, Cache, Caches, RetrievalContext, look_up_once, gather, build_context, chunks_by_embedding_ids,
  retrieve,
}
use synthy.Retrieval.Rpc.{RetrieveRequest, RpcReply, serve_retrieve, response_of}

module _ (env : Env) (start : World) where
  abbrev Same : World → Type 0
  Same w = kept w ≡ kept start

  query-Safe : {A : Type 0} (f : Db → A) → Safe Same (query env f)
  unfolding query
  query-Safe f = record { holds = λ before h. (ground arith, h) }

  generate_embeddings-Safe :
      (text : String) (kind : InputType) → Safe Same (generate_embeddings env text kind)
  unfolding generate_embeddings
  generate_embeddings-Safe text kind = record { holds = λ before h. (ground arith, h) }

  query_similar_vectors-Safe :
      (e : Embedding) (top_k : ℕ) (namespace : String)
      → Safe Same (query_similar_vectors env e top_k namespace)
  unfolding query_similar_vectors
  query_similar_vectors-Safe e top_k namespace = record { holds = λ before h. (ground arith, h) }

  look_up_once-Safe :
      {E : Type 0} (context : String) (f : String → Db → List E) (id : String) (cache : Cache E)
      → Safe Same (look_up_once env context f id cache)
  unfolding look_up_once
  look_up_once-Safe context f id cache =
      Safe-if _ _ _ (Safe-bind _ _ (Safe-wrapping _ _ (query-Safe (f id))) (λ edges. Safe-pure _))
        (Safe-pure cache)

  gather-Safe : (chunks : List CodeChunk) (caches : Caches) → Safe Same (gather env chunks caches)
  unfolding gather
  gather-Safe [] caches = Safe-pure caches
  gather-Safe (c ∷ chunks) (calls, imports) =
      Safe-bind _ _ (look_up_once-Safe _ _ c.symbol_id calls) λ calls_after.
        Safe-bind _ _ (look_up_once-Safe _ _ c.file_id imports)
          (λ imports_after. gather-Safe chunks (calls_after, imports_after))

  build_context-Safe : (chunks : List CodeChunk) → Safe Same (build_context env chunks)
  unfolding build_context
  build_context-Safe chunks = Safe-bind _ _ (gather-Safe chunks _) (λ caches. Safe-pure _)

  chunks_by_embedding_ids-Safe : (ids : List String) → Safe Same (chunks_by_embedding_ids env ids)
  unfolding chunks_by_embedding_ids
  chunks_by_embedding_ids-Safe [] = Safe-pure []
  chunks_by_embedding_ids-Safe (id ∷ ids) = query-Safe _

  retrieve-Safe : (text : String) (top_k : ℤ) → Safe Same (retrieve env text top_k)
  unfolding retrieve
  retrieve-Safe text top_k = Safe-bind _ _ (generate_embeddings-Safe _ _) λ e.
      Safe-bind _ _ (query_similar_vectors-Safe e _ _)
        λ ids. Safe-bind _ _ (chunks_by_embedding_ids-Safe ids) build_context-Safe

  response_of_keeps :
      (out : Result RetrievalContext × World)
      → (out.0 ≢ panic) × Same out.1
      → ((response_of out).0 ≢ RpcReply.crashed) × Same (response_of out).1
  response_of_keeps (ok context, w) (calm, h) = (λ e. ground (arith, e), h)
  response_of_keeps (err e, w) (calm, h) = (λ e. ground (arith, e), h)
  response_of_keeps (panic, w) (calm, h) = absurd (calm refl)

-- Whatever fails, the service does not panic on a request, and changes neither the database, nor the
-- vector index, nor a queue, nor a clone.
pub serve_retrieve_keeps :
    (env : Env) (req : RetrieveRequest) (w : World)
    → ((serve_retrieve env req w).0 ≢ RpcReply.crashed)
      × (kept (serve_retrieve env req w).1 ≡ kept w)
unfolding serve_retrieve
serve_retrieve_keeps env req w = elim (Bool-cases (req.query == "")) [
  | inl empty ↦ rw empty (λ e. ground (arith, e), refl)
  | inr asked ↦
      rw asked (response_of_keeps env w _ ((retrieve-Safe env w req.query req.top_k).holds w refl))
]
