-- ===== src/Consumers/Settled.antt =====
-- What becomes of a delivery.
use synthy.Prelude.{
  String, ℕ, ◌≡◌, refl, ◌⊎◌, inl, inr, sym, false, [], ◌∷◌, ◌++◌, none, some, Option-cases, ap, ◌∙◌,
  suc, List,
}
use mathlib.Core.Path.{subst}
use synthy.Exec.{Result, Error, ok, panic, pure, crash, attempt, ◌>>=◌, Reply, returned}
use synthy.Model.{CodeChunk}
use synthy.Db.Rows.{get_chunk_by_id, update_chunk}
use synthy.World.{
  World, Env, Embedding, ticked, accept, acked, nacked, query, execute, vector_call,
  generate_embeddings, upsert_embeddings, settle_delivery, upsert_vector, delete_vectors,
  default_namespace, document_input, VectorRequest,
}
use synthy.Consumers.{
  ChunkDelivery, set_embedding_id, handle_embedding, ack, fail, metadata_of, vector_upserted,
  embedding_updated, embed_found,
}

-- The loop ends in a panic, and the delivery is left as it is, like everything else.
abbrev pub Panics : World → Result (Unit {0}) × World → Type 0
Panics w out =
    (out.0 ≡ panic)
    × (out.1.settled ≡ w.settled)
    × (out.1.db ≡ w.db)
    × (out.1.requests ≡ w.requests)

-- The delivery is rejected without being queued again, and nothing else happens.
abbrev pub Rejects : ℕ → World → Result (Unit {0}) × World → Type 0
Rejects tag w out =
    (out.0 ≡ ok tt)
    × (out.1.settled ≡ w.settled ++ nacked tag false ∷ [])
    × (out.1.db ≡ w.db)
    × (out.1.requests ≡ w.requests)

-- The model's embedding of the chunk, asked for after the chunk was read.
abbrev pub IsEmbedded : Env → CodeChunk → World → Reply Embedding → Type 0
IsEmbedded env chunk w r = env.generate_embeddings (suc w.tick) chunk.content document_input ≡ r

abbrev pub stored : String → Embedding → CodeChunk → World → List VectorRequest
stored id e chunk w = w.requests ++ upsert_vector id e (metadata_of chunk) default_namespace ∷ []

-- Why a delivery for a chunk is rejected, and what that leaves in the index: nothing, as there is no
-- embedding or the index does not take it; or, as the row cannot be updated, the new vector, which
-- the index was then told to delete, or refused to delete.
abbrev Leftover : Env → CodeChunk → World → World → Type 0
Leftover env chunk w after =
    ((after.requests ≡ w.requests)
      × (((f : Error) × IsEmbedded env chunk w (Reply.failed f))
          ⊎ ((f : Error) × (env.vector_fault (suc (suc w.tick)) ≡ some f))))
    ⊎ (((f : Error) × (env.db_fault (suc (suc (suc w.tick))) ≡ some f))
        × ((id : String) × (e : Embedding) × IsEmbedded env chunk w (returned e)
            × ((after.requests
                  ≡ stored id e chunk w ++ delete_vectors (id ∷ []) default_namespace ∷ [])
                ⊎ ((f : Error) × (env.vector_fault (suc (suc (suc (suc w.tick)))) ≡ some f)
                    × (after.requests ≡ stored id e chunk w)))))

-- The delivery is acknowledged, the row of the chunk has a new embedding id and the index exactly
-- that vector more, the model's embedding; or it is rejected without being queued again, and the
-- database is as it was.
abbrev pub Handled : Env → ℕ → CodeChunk → World → Result (Unit {0}) × World → Type 0
Handled env tag chunk w out =
    ((id : String) × (e : Embedding) × IsEmbedded env chunk w (returned e)
      × (out.0 ≡ ok tt)
      × (out.1.settled ≡ w.settled ++ acked tag ∷ [])
      × (out.1.db ≡ update_chunk chunk.id (set_embedding_id id) w.db)
      × (out.1.requests ≡ stored id e chunk w))
    ⊎ ((out.0 ≡ ok tt)
        × (out.1.settled ≡ w.settled ++ nacked tag false ∷ [])
        × (out.1.db ≡ w.db)
        × Leftover env chunk w out.1)

module _ (env : Env) (delivers : (t : ℕ) → env.delivery_fault t ≡ none) (tag : ℕ) where
  pub fail_lem : (v : World) → Rejects tag v (fail env tag v)
  unfolding fail settle_delivery pure attempt ◌>>=◌
  fail_lem v = rw (delivers v.tick) (refl, refl, refl, refl)

  pub ack_lem :
      (v : World)
      → ((ack env tag v).0 ≡ ok tt)
        × ((ack env tag v).1.settled ≡ v.settled ++ acked tag ∷ [])
        × ((ack env tag v).1.db ≡ v.db)
        × ((ack env tag v).1.requests ≡ v.requests)
  unfolding ack settle_delivery pure attempt ◌>>=◌
  ack_lem v = rw (delivers v.tick) (refl, refl, refl, refl)

module _ (env : Env) (delivers : (t : ℕ) → env.delivery_fault t ≡ none) (tag : ℕ)
    (chunk : CodeChunk) (w : World) where
  -- The world after the chunk's vector was stored.
  abbrev Holds : String → Embedding → World → Type 0
  Holds id e u =
      (u.settled ≡ w.settled)
      × (u.db ≡ w.db)
      × (u.requests ≡ stored id e chunk w)
      × (u.tick ≡ suc (suc (suc w.tick)))

  dropped :
      (id : String) (e : Embedding) (u : World)
      → IsEmbedded env chunk w (returned e)
      → Holds id e u
      → (f : Error) → env.db_fault u.tick ≡ some f
      → Handled env tag chunk w (embedding_updated env tag id none (ticked env u))
  unfolding vector_call attempt ◌>>=◌
  dropped id e u given (s, d, q, now) f bad = elim (Option-cases (env.vector_fault (suc u.tick))) [
    | inl fine ↦
        let request = delete_vectors (id ∷ []) default_namespace in
        let (r, s', d', q') = fail_lem env delivers tag (accept env none request (ticked env u)) in
        rw fine (
          inr (
            r,
            s' ∙ ap (λ xs. xs ++ nacked tag false ∷ []) s,
            d' ∙ d,
            inr ((f, rw now at bad), (id, e, given, inl (q' ∙ ap (λ xs. xs ++ request ∷ []) q))),
          ))
    | inr (g, failed) ↦
        let (r, s', d', q') = fail_lem env delivers tag (ticked env (ticked env u)) in
        rw failed (
          inr (
            r,
            s' ∙ ap (λ xs. xs ++ nacked tag false ∷ []) s,
            d' ∙ d,
            inr ((f, rw now at bad), (id, e, given, inr (g, rw now at failed, q' ∙ q))),
          ))
  ]

  pointed :
      (id : String) (e : Embedding) (u : World)
      → IsEmbedded env chunk w (returned e)
      → Holds id e u
      → Handled env tag chunk w (
          (attempt (execute env (update_chunk chunk.id (set_embedding_id id)))
              >>= embedding_updated env tag id)
            u)
  unfolding execute attempt ◌>>=◌
  pointed id e u given (s, d, q, now) = elim (Option-cases (env.db_fault u.tick)) [
    | inl fine ↦
        let done = record (ticked env u) {
          db = update_chunk chunk.id (set_embedding_id id) u.db;
        } in
        let (r, s', d', q') = ack_lem env delivers tag done in
        rw fine (
          inl (
            id,
            e,
            given,
            r,
            s' ∙ ap (λ xs. xs ++ acked tag ∷ []) s,
            d' ∙ ap (update_chunk chunk.id (set_embedding_id id)) d,
            q' ∙ q,
          ))
    | inr (f, failed) ↦ rw failed (dropped id e u given (s, d, q, now) f failed)
  ]

  upserted :
      (e : Embedding)
      → IsEmbedded env chunk w (returned e)
      → Handled env tag chunk w (
          (attempt (upsert_embeddings env e (metadata_of chunk) default_namespace)
              >>= vector_upserted env tag chunk)
            (ticked env (ticked env w)))
  unfolding upsert_embeddings vector_call attempt pure ◌>>=◌
  upserted e given =
      let v = ticked env (ticked env w) in
      let id = env.random_vector_id v.tick in
      let request = upsert_vector id e (metadata_of chunk) default_namespace in
      elim (Option-cases (env.vector_fault v.tick)) [
        | inr (f, failed) ↦
            let (r, s, d, q) = fail_lem env delivers tag (ticked env v) in
            rw failed (inr (r, s, d, inl (q, inr (f, refl))))
        | inl fine ↦
            let same : (attempt (upsert_embeddings env e (metadata_of chunk) default_namespace)
                    >>= vector_upserted env tag chunk)
                  v
                ≡ (attempt (execute env (update_chunk chunk.id (set_embedding_id id)))
                      >>= embedding_updated env tag id)
                    (accept env none request v) =
              rw fine refl in
            subst (Handled env tag chunk w) (sym same)
              (pointed id e (accept env none request v) given (refl, refl, refl, refl))
      ]

  embedded : Handled env tag chunk w (embed_found env tag (some (some chunk)) (ticked env w))
  unfolding generate_embeddings attempt ◌>>=◌
  embedded = stage (env.generate_embeddings (suc w.tick) chunk.content document_input) refl
    where
      stage :
          (r : Reply Embedding)
          → IsEmbedded env chunk w r
          → Handled env tag chunk w (embed_found env tag (some (some chunk)) (ticked env w))
      stage (returned e) q =
          let same : embed_found env tag (some (some chunk)) (ticked env w)
              ≡ (attempt (upsert_embeddings env e (metadata_of chunk) default_namespace)
                    >>= vector_upserted env tag chunk)
                  (ticked env (ticked env w)) =
            rw q refl in
          subst (Handled env tag chunk w) (sym same) (upserted e q)
      stage (Reply.failed f) q =
          let (r, s, d, same) = fail_lem env delivers tag (ticked env (ticked env w)) in
          rw q (inr (r, s, d, inl (same, inl (f, refl))))

-- If acknowledgements and rejections get through, the embedding consumer rejects a delivery, with
-- nothing else done, where the database fails to look for the chunk. Where it answers that there is
-- no such chunk, the consumer panics, and leaves the delivery unsettled. Where it finds the chunk,
-- the delivery is settled once: it is acknowledged with the chunk's row pointing at a vector that
-- the index has accepted, the model's embedding of the chunk, and nothing else changed there; or
-- the model, the index or the update of the row has failed, and it is rejected for the dead-letter
-- queue with the database as it was and no vector left behind, but for one that the index would not
-- delete.
pub handle_embedding-Handled :
    (env : Env) (msg : ChunkDelivery) (w : World)
    → ((t : ℕ) → env.delivery_fault t ≡ none)
    → (((f : Error) × (env.db_fault w.tick ≡ some f))
        × Rejects msg.tag w (handle_embedding env msg w))
      ⊎ ((env.db_fault w.tick ≡ none)
          × (get_chunk_by_id msg.chunk_id w.db ≡ none)
          × Panics w (handle_embedding env msg w))
      ⊎ ((env.db_fault w.tick ≡ none)
          × ((chunk : CodeChunk) × (get_chunk_by_id msg.chunk_id w.db ≡ some chunk)
              × Handled env msg.tag chunk w (handle_embedding env msg w)))
unfolding handle_embedding query crash attempt ◌>>=◌
handle_embedding-Handled env msg w delivers = elim (Option-cases (env.db_fault w.tick)) [
  | inr (f, failed) ↦ rw failed (inl ((f, refl), fail_lem env delivers msg.tag (ticked env w)))
  | inl fine ↦ elim (Option-cases (get_chunk_by_id msg.chunk_id w.db)) [
    | inl missing ↦ rw (fine, missing) (inr (inl (refl, refl, (refl, refl, refl, refl))))
    | inr (chunk, found) ↦
        rw (fine, found) (inr (inr (refl, (chunk, refl, embedded env delivers msg.tag chunk w))))
  ]
]
