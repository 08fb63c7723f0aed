-- ===== src/System/Coherent/Served.antt =====
-- Events of repositories and requests, and the chunks' symbols.
use synthy.Prelude.{String, ℕ, refl, ap, sym, arith, inl, inr, Option-cases}
use mathlib.Core.Path.{subst}
use synthy.Exec.{wrapping}
use synthy.Model.{Installation}
use synthy.Db.Rows.{upsert_installation, delete_by_organization}
use synthy.Db.Coherent.{IsCoherent, Alone-IsCoherent, upsert_installation-Alone}
use synthy.World.{World, Env, statement}
use synthy.World.Safe.{Safe}
use synthy.World.Growth.{OnDb, statement-Keeps, execute-Keeps}
use synthy.World.Steady.{
  Steady, Steady-attempt, Steady-bind, Steady-if, Steady-raise, Steady-wrapping,
}
use synthy.Vectors.{Wiring}
use synthy.Changes.{IngestionMessage}
use synthy.Pipeline.Coherent.{process_repository-IsCoherent}
use synthy.Github.Client.{Client, Repo}
use synthy.Github.Service.{publish, publish_event, index_message, disconnect}
use synthy.Github.Api.{Caller, Request, serve}
use synthy.Github.Api.Steps.{serve-holds}
use synthy.Cloner.{Clone}
use synthy.Ingestion.{IngestionDelivery, input_of, index_clone, index_for, handle, handle_delivery}
use synthy.Ingestion.Steady.{
  clone-Steady, index_clone_after, token_for-Steady, organization_for-Steady, handled-Steady,
}
use synthy.Retrieval.Rpc.{RetrieveRequest, serve_retrieve}
use synthy.Retrieval.Silent.{serve_retrieve_keeps}

abbrev Good : World → Type 0
Good = OnDb IsCoherent

module _ (env : Env) (client : Client) where
  module _ (wiring : Wiring) where
    index_clone-Steady :
        (m : IngestionMessage) (organization : String) (made : Clone)
        → Steady IsCoherent (index_clone env client wiring m organization made)
    index_clone-Steady m organization made = record {
      at = λ w i.
          index_clone_after env client wiring IsCoherent m organization made w
            (process_repository-IsCoherent env wiring made.path (input_of m organization) w i);
    }

    index_for-Steady :
        (m : IngestionMessage) (token organization : String)
        → Steady IsCoherent (index_for env client wiring m token organization)
    index_for-Steady m token organization = Steady-if _ _ _ (Steady-raise _) (
        Steady-bind _ _ (Steady-wrapping _ _ (clone-Steady env client wiring _ _ _ _))
          (index_clone-Steady m organization))

    handle-Steady : (m : IngestionMessage) → Steady IsCoherent (handle env client wiring m)
    unfolding handle
    handle-Steady m = Steady-bind _ _ (token_for-Steady env client wiring m) λ token.
        Steady-bind _ _ (organization_for-Steady env client wiring m) (index_for-Steady m token)

    pub handle_delivery-Steady :
        (d : IngestionDelivery) → Steady IsCoherent (handle_delivery env client wiring d)
    unfolding handle_delivery
    handle_delivery-Steady d =
        Steady-bind _ _ (Steady-attempt _ (handle-Steady d.message))
          (handled-Steady env client wiring d.tag)

  publish-Safe :
      (o : String) (id : ℕ) (repo : Repo) → Safe Good (publish env client (index_message o id repo))
  unfolding publish publish_event wrapping
  publish-Safe o id repo = record {
    holds = λ w good. elim (Option-cases (env.event_fault w.tick)) [
      | inr (e, bad) ↦ rw bad (λ e. ground (arith, e), good)
      | inl fine ↦ rw fine (λ e. ground (arith, e), good)
    ];
  }

  upsert-Safe : (i : Installation) → Safe Good (statement env (upsert_installation i))
  upsert-Safe i =
      let k = statement-Keeps env IsCoherent (upsert_installation i) (record {
        at = λ db db' e. Alone-IsCoherent db db' (upsert_installation-Alone i db db' e);
      }) in
      record { holds = λ w good. (k.calm w, k.at w good) }

  disconnect-Safe : (o : String) → Safe Good (disconnect env client o)
  unfolding disconnect delete_by_organization
  disconnect-Safe o =
      let k =
        execute-Keeps env IsCoherent (delete_by_organization o)
          (λ db. Alone-IsCoherent db (delete_by_organization o db) (refl, refl)) in
      record { holds = λ w good. (k.calm w, k.at w good) }

  pub serve-Steady :
      (caller : Caller) (request : Request) (w : World)
      → IsCoherent w.db
      → IsCoherent (serve env client caller request w).1.db
  serve-Steady caller request w good =
      serve-holds Good (λ v u e. subst IsCoherent (sym (ap (λ k. k.0) e))) env client caller w good
        (λ o named. record {
          publishes = publish-Safe o;
          upserts = λ i _. upsert-Safe i;
          deletes = disconnect-Safe o;
        })
        request

pub serve_retrieve-Steady :
    (env : Env) (req : RetrieveRequest) (w : World)
    → IsCoherent w.db
    → IsCoherent (serve_retrieve env req w).1.db
serve_retrieve-Steady env req w good =
    subst IsCoherent (sym (ap (λ k. k.0) (serve_retrieve_keeps env req w).1)) good
