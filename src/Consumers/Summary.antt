-- ===== src/Consumers/Summary.antt =====
-- What becomes of a delivery to the summary consumer.
use synthy.Prelude.{
  String, ℕ, suc, sym, ◌≡◌, refl, ◌⊎◌, inl, inr, [], ◌∷◌, ◌++◌, none, some, Option-cases,
}
use mathlib.Core.Path.{subst}
use synthy.Exec.{Error, Result, ok, crash, attempt, ◌>>=◌, Reply, returned}
use synthy.Model.{CodeChunk}
use synthy.Db.Rows.{get_chunk_by_id, update_chunk}
use synthy.World.{World, Env, ticked, acked, query, execute, generate_summary}
use synthy.Consumers.{ChunkDelivery, set_summary, handle_summary, summarise_found, summary_updated}
use synthy.Consumers.Settled.{Rejects, Panics, fail_lem, ack_lem}

-- The delivery is acknowledged and the row of the chunk has a new summary, the model's; or it is
-- rejected without being queued again, as the model or the update of the row has failed, and the
-- database is as it was. The index is not asked for anything.
abbrev pub Summarised : Env → ℕ → CodeChunk → World → Result (Unit {0}) × World → Type 0
Summarised env tag chunk w out =
    ((text : String) × (env.generate_summary (suc w.tick) chunk.content ≡ returned text)
      × (out.0 ≡ ok tt)
      × (out.1.settled ≡ w.settled ++ acked tag ∷ [])
      × (out.1.db ≡ update_chunk chunk.id (set_summary text) w.db)
      × (out.1.requests ≡ w.requests))
    ⊎ (Rejects tag w out
        × (((f : Error) × (env.generate_summary (suc w.tick) chunk.content ≡ Reply.failed f))
            ⊎ ((f : Error) × (env.db_fault (suc (suc w.tick)) ≡ some f))))

module _ (env : Env) (delivers : (t : ℕ) → env.delivery_fault t ≡ none) (tag : ℕ)
    (chunk : CodeChunk) (w : World) where
  written :
      (text : String)
      → env.generate_summary (suc w.tick) chunk.content ≡ returned text
      → Summarised env tag chunk w (
          (attempt (execute env (update_chunk chunk.id (set_summary text)))
              >>= summary_updated env tag)
            (ticked env (ticked env w)))
  unfolding execute attempt ◌>>=◌
  written text given = elim (Option-cases (env.db_fault (suc (suc w.tick)))) [
    | inr (f, failed) ↦
        rw failed
          (inr (fail_lem env delivers tag (ticked env (ticked env (ticked env w))), inr (f, refl)))
    | inl fine ↦
        let row = update_chunk chunk.id (set_summary text) w.db in
        let (r, s, d, q) =
          ack_lem env delivers tag (record (ticked env (ticked env (ticked env w))) { db = row }) in
        rw fine (inl (text, given, r, s, d, q))
  ]

  summarised :
      Summarised env tag chunk w (summarise_found env tag (some (some chunk)) (ticked env w))
  unfolding generate_summary attempt ◌>>=◌
  summarised = answered (env.generate_summary (suc w.tick) chunk.content) refl
    where
      answered :
          (r : Reply String)
          → env.generate_summary (suc w.tick) chunk.content ≡ r
          → Summarised env tag chunk w (summarise_found env tag (some (some chunk)) (ticked env w))
      answered (returned text) q =
          let same : summarise_found env tag (some (some chunk)) (ticked env w)
              ≡ (attempt (execute env (update_chunk chunk.id (set_summary text)))
                    >>= summary_updated env tag)
                  (ticked env (ticked env w)) =
            rw q refl in
          subst (Summarised env tag chunk w) (sym same) (written text q)
      answered (Reply.failed f) q =
          rw q (inr (fail_lem env delivers tag (ticked env (ticked env w)), inl (f, refl)))

-- If acknowledgements and rejections get through, the summary consumer rejects a delivery where the
-- database fails to look for the chunk. Where it answers that there is no such chunk, the consumer
-- panics, and leaves the delivery unsettled. Where it finds the chunk, the delivery is settled
-- once: it is acknowledged with the model's summary in the chunk's row and nothing else changed
-- there; or the model or the update of the row has failed, and it is rejected for the dead-letter
-- queue with the database as it was. The index is asked for nothing.
pub handle_summary-Summarised :
    (env : Env) (msg : ChunkDelivery) (w : World)
    → ((t : ℕ) → env.delivery_fault t ≡ none)
    → (((f : Error) × (env.db_fault w.tick ≡ some f))
        × Rejects msg.tag w (handle_summary env msg w))
      ⊎ ((env.db_fault w.tick ≡ none)
          × (get_chunk_by_id msg.chunk_id w.db ≡ none)
          × Panics w (handle_summary env msg w))
      ⊎ ((env.db_fault w.tick ≡ none)
          × ((chunk : CodeChunk) × (get_chunk_by_id msg.chunk_id w.db ≡ some chunk)
              × Summarised env msg.tag chunk w (handle_summary env msg w)))
unfolding handle_summary query crash attempt ◌>>=◌
handle_summary-Summarised env msg w delivers = elim (Option-cases (env.db_fault w.tick)) [
  | inr (f, failed) ↦ rw failed (inl ((f, refl), fail_lem env delivers msg.tag (ticked env w)))
  | inl fine ↦ elim (Option-cases (get_chunk_by_id msg.chunk_id w.db)) [
    | inl missing ↦ rw (fine, missing) (inr (inl (refl, refl, (refl, refl, refl, refl))))
    | inr (chunk, found) ↦
        rw (fine, found) (inr (inr (refl, (chunk, refl, summarised env delivers msg.tag chunk w))))
  ]
]
