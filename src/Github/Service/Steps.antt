-- ===== src/Github/Service/Steps.antt =====
-- What every operation of internal/usecase/github/service.go keeps, if its writes do.
use synthy.Prelude.{String, ℕ, suc, ◌≡◌, refl, arith, List, [], ◌∷◌, Option, none, some}
use synthy.Model.{Installation}
use synthy.Db.{Db}
use synthy.Db.Rows.{upsert_installation}
use synthy.World.{World, Env, query, statement, time_now}
use synthy.World.Safe.{Safe, Safe-pure, Safe-raise, Safe-if, Safe-bind}
use synthy.Github.Client.{Client, Repo}
use synthy.Github.Client.Silent.{
  kept, get_installation_account-Safe, list_repositories-Safe, list_branches-Safe,
}
use synthy.Github.Service.{
  connect, disconnect, connection, new_installation_id, require_installation, connected, publish,
  index_message, publish_each, list_repositories, list_branches, index_connected_repositories,
  list_indexed_repositories,
}

-- What an organization may write keeps `P`.
pub record Allows (env : Env) (client : Client) (P : World → Type 0) (o : String) : Type 0 where
  pub publishes : (id : ℕ) (repo : Repo) → Safe P (publish env client (index_message o id repo))
  pub upserts :
      (i : Installation) → i.organization_id ≡ o → Safe P (statement env (upsert_installation i))
  pub deletes : Safe P (disconnect env client o)

module _ (env : Env) (client : Client) (P : World → Type 0)
    (only : (v w : World) → kept v ≡ kept w → P w → P v) where
  query-Safe : {A : Type 0} (f : Db → A) → Safe P (query env f)
  unfolding query
  query-Safe f = record { holds = λ before h. (ground arith, only _ before refl h) }

  time_now-Safe : Safe P (time_now env)
  unfolding time_now
  time_now-Safe = record { holds = λ before h. (ground arith, only _ before refl h) }

  new_installation_id-Safe : Safe P (new_installation_id env client)
  unfolding new_installation_id
  new_installation_id-Safe = record { holds = λ before h. (ground arith, only _ before refl h) }

  connected-Safe : (found : Option Installation) → Safe P (connected env client found)
  connected-Safe none = Safe-raise _
  connected-Safe (some i) = Safe-pure i

  require_installation-Safe : (o : String) → Safe P (require_installation env client o)
  unfolding require_installation
  require_installation-Safe o =
      Safe-if _ _ _ (Safe-bind _ _ (query-Safe _) connected-Safe) (Safe-raise _)

  pub connection-Safe : (o : String) → Safe P (connection env client o)
  unfolding connection
  connection-Safe o = Safe-if _ _ _ (Safe-bind _ _ (query-Safe _) (λ _. Safe-pure _)) (Safe-pure _)

  pub repositories-Safe : (o : String) → Safe P (list_repositories env client o)
  unfolding list_repositories
  repositories-Safe o =
      Safe-bind _ _ (require_installation-Safe o)
        (λ i. list_repositories-Safe env P only client i.installation_id)

  pub branches-Safe : (o name : String) → Safe P (list_branches env client o name)
  unfolding list_branches
  branches-Safe o name =
      Safe-bind _ _ (require_installation-Safe o)
        (λ i. list_branches-Safe env P only client i.installation_id name)

  pub indexed-Safe : (o : String) → Safe P (list_indexed_repositories env client o)
  unfolding list_indexed_repositories
  indexed-Safe o = Safe-bind _ _ (query-Safe _) (λ _. Safe-pure _)

  module _ (o : String) (allows : Allows env client P o) where
    publish_each-Safe :
        (id n : ℕ) (repos : List Repo) → Safe P (publish_each env client o id n repos)
    unfolding publish_each
    publish_each-Safe id n [] = Safe-pure n
    publish_each-Safe id n (repo ∷ repos) =
        Safe-bind _ _ (allows.publishes id repo) (λ _. publish_each-Safe id (suc n) repos)

    pub index-Safe : Safe P (index_connected_repositories env client o)
    unfolding index_connected_repositories
    index-Safe = Safe-bind _ _ (require_installation-Safe o) λ i.
        Safe-bind _ _ (list_repositories-Safe env P only client i.installation_id)
          (publish_each-Safe i.installation_id 0)

    pub connect-Safe : (id : ℕ) → Safe P (connect env client o id)
    unfolding connect
    connect-Safe id =
        Safe-if _ _ _
          (Safe-bind _ _ (get_installation_account-Safe env P only client id) λ account.
            Safe-bind _ _ time_now-Safe λ now.
              Safe-bind _ _ new_installation_id-Safe
                λ row_id. Safe-bind _ _ (allows.upserts _ refl) (λ _. Safe-pure _))
          (Safe-raise _)
