-- ===== src/Ingestion/Steady.antt =====
-- The steps of a repository event around its index run leave the database as it is.
use synthy.Prelude.{String, ℕ, ap, sym, Option, none, some}
use mathlib.Core.Path.{subst}
use synthy.Db.{Db}
use synthy.World.{World, Env}
use synthy.World.Growth.{OnDb}
use synthy.World.Steady.{Steady, Safe-Steady}
use synthy.Vectors.{Wiring}
use synthy.Pipeline.{process_repository}
use synthy.Exec.{deferring, wrapping}
use synthy.Changes.{IngestionMessage}
use synthy.Github.Client.{Client}
use synthy.Cloner.{Clone, clone}
use synthy.Cloner.Left.{clone-others, cleanup-others}
use synthy.Consumers.Steady.{fail-Steady, ack-Steady}
use synthy.Ingestion.{input_of, index_clone, token_for, organization_for, handled}
use synthy.Ingestion.Credentials.{token_for-Safe, organization_for-Safe}

module _ (env : Env) (client : Client) (wiring : Wiring) {Q : Db → Type 0} where
  pub clone-Steady : (url branch leaf token : String) → Steady Q (clone env url branch leaf token)
  clone-Steady url branch leaf token = record {
    at = λ w i. subst Q (sym (ap (λ o. o.0) (clone-others env url branch token leaf w).1)) i;
  }

  pub token_for-Steady : (m : IngestionMessage) → Steady Q (token_for env client wiring m)
  token_for-Steady m =
      Safe-Steady _
        (token_for-Safe env client wiring (OnDb Q) (λ v w _ same good. subst Q (sym same) good) m)

  pub organization_for-Steady :
      (m : IngestionMessage) → Steady Q (organization_for env client wiring m)
  organization_for-Steady m = Safe-Steady _ (
      organization_for-Safe env client wiring (OnDb Q) (λ v w _ same good. subst Q (sym same) good)
        m)

  pub handled-Steady :
      (tag : ℕ) (done : Option (Unit {0})) → Steady Q (handled env client wiring tag done)
  handled-Steady tag none = fail-Steady env tag
  handled-Steady tag (some _) = ack-Steady env tag

module _ (env : Env) (client : Client) (wiring : Wiring) (Q : Db → Type 0) where
  -- Cleaning up leaves the database as the index run has left it.
  pub index_clone_after :
      (m : IngestionMessage) (organization : String) (made : Clone) (w : World)
      → Q (process_repository env wiring made.path (input_of m organization) w).1.db
      → Q (index_clone env client wiring m organization made w).1.db
  unfolding index_clone deferring wrapping
  index_clone_after m organization made w =
      subst Q (sym (ap (λ o. o.0) (cleanup-others env made.parent _).1))
