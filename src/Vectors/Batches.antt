-- ===== src/Vectors/Batches.antt =====
-- The batches of vector deletions: what a run asks of the index.
use synthy.Prelude.{
  String, ℕ, zero, suc, ◌≤◌, ◌≡◌, refl, sym, ap, ◌∙◌, arith, List, [], ◌∷◌, ◌++◌, true, append-nil,
  append_assoc, none, All, length, take, drop, length-take-le, length-drop-le, Option-cases,
  take-append-drop, inl, inr, ◌⊎◌,
}
use synthy.Exec.{Error, Result, ok, err, wrap, pure, wrapping, ◌>>=◌}
use synthy.Model.{CodeChunk}
use synthy.World.{
  World, Env, VectorRequest, delete_vectors, default_namespace, vector_call, ticked, accept,
}
use synthy.Vectors.{Wiring, embedding_ids, delete_batches, delete_vectors_for_chunks}

abbrev pub deletions : List (List String) → List VectorRequest
deletions [] = []
deletions (batch ∷ batches) = delete_vectors batch default_namespace ∷ deletions batches

abbrev pub joined : List (List String) → List String
joined [] = []
joined (batch ∷ batches) = batch ++ joined batches

-- The index was asked to delete the batches, in this order, and nothing else; each batch is within
-- the limit; and together they are the ids in order, all of them unless the run failed, and then up to
-- where it failed.
pub record Deleted (size : ℕ) (ids : List String) (w : World) (out : Result (Unit {0}) × World)
    : Type 0 where
  pub batches : List (List String)
  pub rest : List String
  pub asked : out.1.requests ≡ w.requests ++ deletions batches
  pub within : All (λ b. length b ≤ size) batches
  pub in_order : joined batches ++ rest ≡ ids
  pub complete : (rest ≡ []) ⊎ ((e : Error) × (out.0 ≡ err e))
  pub same_db : out.1.db ≡ w.db

module _ (env : Env) where
  nothing_left : (size : ℕ) (w : World) → Deleted size [] w (ok tt, w)
  nothing_left size w = record {
    batches = [];
    rest = [];
    asked = sym (append-nil w.requests);
    within = tt;
    in_order = refl;
    complete = inl refl;
    same_db = refl;
  }

  one_more :
      (size : ℕ) (ids : List String) (w : World) (out : Result (Unit {0}) × World)
      → Deleted size
          (drop size ids)
          (accept env none (delete_vectors (take size ids) default_namespace) w)
          out
      → Deleted size ids w out
  one_more size ids w out d = record {
    batches = take size ids ∷ d.batches;
    rest = d.rest;
    asked = d.asked ∙ append_assoc w.requests _ (deletions d.batches);
    within = (length-take-le size ids, d.within);
    in_order =
        append_assoc (take size ids) (joined d.batches) d.rest
        ∙ ap (◌++◌ (take size ids)) d.in_order
        ∙ take-append-drop size ids;
    complete = d.complete;
    same_db = d.same_db;
  }

  stopped :
      (size : ℕ) (ids : List String) (w : World) (e : Error)
      → Deleted size ids w (err e, ticked env w)
  stopped size ids w e = record {
    batches = [];
    rest = ids;
    asked = sym (append-nil w.requests);
    within = tt;
    in_order = refl;
    complete = inr (e, refl);
    same_db = refl;
  }

  delete_batches-Deleted :
      (size fuel : ℕ) (ids : List String) (w : World)
      → length ids ≤ fuel
      → Deleted (suc size) ids w (delete_batches env (suc size) fuel ids w)
  unfolding delete_batches pure vector_call wrapping ◌>>=◌
  delete_batches-Deleted size zero [] w h = nothing_left (suc size) w
  delete_batches-Deleted size zero (id ∷ ids) w h = elim h [ ]
  delete_batches-Deleted size (suc fuel) [] w h = nothing_left (suc size) w
  delete_batches-Deleted size (suc fuel) (id ∷ ids) w h =
      let request = delete_vectors (id ∷ take size ids) default_namespace in
      elim (Option-cases (env.vector_fault w.tick)) [
        | inl fine ↦ rw fine (
            one_more (suc size) (id ∷ ids) w _ (
              delete_batches-Deleted size fuel (drop size ids) (accept env none request w)
                (omega (arith, length-drop-le size ids))))
        | inr (e, failed) ↦ rw failed (stopped (suc size) (id ∷ ids) w (wrap "delete vectors" e))
      ]

  -- With a vector store, deleting the vectors of chunks asks the index for nothing but batches of at
  -- most 1000 ids, which are together the chunks' embedding ids in order, each once for each chunk
  -- that has it: all of them if the run returns, and a first part of them if the index fails. The
  -- database stays as it is.
  pub delete_vectors_for_chunks-Deleted :
      (wiring : Wiring) (chunks : List CodeChunk) (w : World)
      → wiring.vectors ≡ true
      → Deleted 1000 (embedding_ids chunks) w (delete_vectors_for_chunks env wiring chunks w)
  unfolding delete_vectors_for_chunks
  delete_vectors_for_chunks-Deleted wiring chunks w wired = rw wired (
      delete_batches-Deleted 999 (length (embedding_ids chunks)) (embedding_ids chunks) w
        (omega arith))
