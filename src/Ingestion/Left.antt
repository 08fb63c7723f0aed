-- ===== src/Ingestion/Left.antt =====
-- What the handling of a repository event leaves on the disk.
use synthy.Prelude.{
  String, ℕ, ◌≡◌, ◌≢◌, refl, ap, ◌∙◌, arith, false, List, [], ◌∷◌, ◌++◌, inl, inr, none, ◌==◌,
  contains, keep, not, Option-cases,
}
use synthy.Exec.{Exec, panic, pure, wrapping, attempt, deferring, ◌>>=◌, returned}
use synthy.Exec.Rules.{Result-cases}
use synthy.World.{World, Env, settle_delivery}
use synthy.World.Keeps.{aside}
use synthy.World.Safe.{Safe, Safe-raise, Safe-if, Safe-bind}
use synthy.Vectors.{Wiring}
use synthy.Changes.{IngestionMessage}
use synthy.Pipeline.Run.{process_repository-Keeps}
use synthy.Github.Client.{Client}
use synthy.Cloner.{Clone, clone}
use synthy.Cloner.Left.{clone-Opens, cleanup-clones, drop_last}
use synthy.Consumers.{fail, ack}
use synthy.Ingestion.Credentials.{Anything, anything, token_for-Safe, organization_for-Safe}
use synthy.Ingestion.{IngestionDelivery, index_clone, index_for, handle, handle_delivery, input_of}

module _ (env : Env) (client : Client) (wiring : Wiring) where
  index_clone_removes :
      (m : IngestionMessage) (organization : String) (made : Clone) (xs : List String) (v : World)
      → ((t : ℕ) → env.remove_fault t ≡ none)
      → contains made.parent xs ≡ false
      → v.clones ≡ xs ++ made.parent ∷ []
      → ((index_clone env client wiring m organization made v).0 ≢ panic)
        × ((index_clone env client wiring m organization made v).1.clones ≡ xs)
  unfolding index_clone deferring wrapping
  index_clone_removes m organization made xs v removes fresh held =
      let k =
        process_repository-Keeps env wiring Anything anything made.path (input_of m organization) in
      (
        ground (arith, k.calm v),
        cleanup-clones env made.parent _ (removes _)
            ∙ ap (keep (λ c. not (c == made.parent))) (ap (λ a. a.1) (k.apart v) ∙ held)
            ∙ drop_last made.parent xs fresh,
      )

  module _ (xs : List String) (removes : (t : ℕ) → env.remove_fault t ≡ none)
      (fresh : (t : ℕ) (d : String) → env.make_temp t ≡ returned d → contains d xs ≡ false) where
    abbrev Before : World → Type 0
    Before w = w.clones ≡ xs

    same_aside : (v w : World) → aside v ≡ aside w → Before w → Before v
    same_aside v w e h = ap (λ a. a.1) e ∙ h

    clone_and_index : IngestionMessage → String → String → Exec World (Unit {0})
    clone_and_index m token organization = do
      made ←
          wrapping "clone repository"
            (clone env m.clone_url m.default_branch m.repo_full_name token)
      index_clone env client wiring m organization made

    clone_and_index-Safe :
        (m : IngestionMessage) (token organization : String)
        → Safe Before (clone_and_index m token organization)
    unfolding clone_and_index wrapping ◌>>=◌
    clone_and_index-Safe m token organization = record {
      holds = λ before p.
          let (opens, apart) =
            clone-Opens env m.clone_url m.default_branch token m.repo_full_name before removes
              (λ d made. rw p (fresh before.tick d made)) in
          elim opens [
            | inl (c, done, path, added, new) ↦ rw done (
                index_clone_removes m organization c xs _ removes (rw p at new)
                  (added ∙ ap (λ ys. ys ++ c.parent ∷ []) p))
            | inr (e, failed, kept) ↦ rw failed (λ bad. ground (arith, bad), kept ∙ p)
          ];
    }

    index_for-Safe :
        (m : IngestionMessage) (token organization : String)
        → Safe Before (index_for env client wiring m token organization)
    unfolding clone_and_index
    index_for-Safe m token organization =
        Safe-if _ _ _ (Safe-raise _) (clone_and_index-Safe m token organization)

    handle-Safe : (m : IngestionMessage) → Safe Before (handle env client wiring m)
    unfolding handle
    handle-Safe m =
        Safe-bind _ _ (token_for-Safe env client wiring Before (λ v w a _. same_aside v w a) m)
          (λ token.
            Safe-bind _ _
              (organization_for-Safe env client wiring Before (λ v w a _. same_aside v w a) m)
              (index_for-Safe m token))

module _ (env : Env) (tag : ℕ) (v : World) where
  fail-clones : (fail env tag v).1.clones ≡ v.clones
  unfolding fail settle_delivery attempt pure ◌>>=◌
  fail-clones = elim (Option-cases (env.delivery_fault v.tick)) [
    | inl fine ↦ rw fine refl
    | inr (e, bad) ↦ rw bad refl
  ]

  ack-clones : (ack env tag v).1.clones ≡ v.clones
  unfolding ack settle_delivery attempt pure ◌>>=◌
  ack-clones = elim (Option-cases (env.delivery_fault v.tick)) [
    | inl fine ↦ rw fine refl
    | inr (e, bad) ↦ rw bad refl
  ]

-- If os.RemoveAll works and os.MkdirTemp makes directories that were not there, then handling a
-- repository event leaves no directory behind and removes no other, whether the clone and the index
-- run succeed or fail.
pub handle_delivery_leaves_nothing :
    (env : Env) (client : Client) (wiring : Wiring) (d : IngestionDelivery) (w : World)
    → ((t : ℕ) → env.remove_fault t ≡ none)
    → ((t : ℕ) (dir : String) → env.make_temp t ≡ returned dir → contains dir w.clones ≡ false)
    → (handle_delivery env client wiring d w).1.clones ≡ w.clones
unfolding handle_delivery attempt ◌>>=◌
handle_delivery_leaves_nothing env client wiring d w removes fresh =
    let (calm, same) =
      (handle-Safe env client wiring w.clones removes fresh d.message).holds w refl in
    elim (Result-cases _ calm) [
      | inl (a, done) ↦ rw done (ack-clones env d.tag _ ∙ same)
      | inr (e, failed) ↦ rw failed (fail-clones env d.tag _ ∙ same)
    ]
