-- ===== src/Github/Client/Silent.antt =====
-- The calls of the GitHub API change nothing but the clock and the clients of installations.
use synthy.Prelude.{
  String, ℕ, zero, suc, ◌≡◌, refl, arith, List, [], Option, none, some, inl, inr, Bool-cases,
  Option-cases,
}
use synthy.Exec.{Exec}
use synthy.Changes.Proto.{RepositoryEventMessage}
use synthy.Db.{Db}
use synthy.World.{World, Env, VectorRequest, EmbeddingRequest, Settlement, ApiReply}
use synthy.World.Safe.{Safe, Safe-pure, Safe-raise, Safe-if, Safe-bind}
use synthy.Github.Client.{
  Client, has_client, call_page, gathered, collect, installation_client, list_repositories,
  list_branches, branches_of, call_installation, get_installation_account, max_pages, to_repo,
  text_of,
}

abbrev pub kept :
    World
    → Db
      × List VectorRequest
      × List EmbeddingRequest
      × List Settlement
      × List String
      × List RepositoryEventMessage
kept w = (w.db, w.requests, w.published, w.settled, w.clones, w.queued)

module _ (env : Env) (P : World → Type 0) (only : (v w : World) → kept v ≡ kept w → P w → P v) where
  module _ {A B : Type 0} (ask : ℕ → ℕ → ApiReply (List A × ℕ)) (convert : A → B) where
    call_page-Safe : (page : ℕ) → Safe P (call_page env ask convert page)
    unfolding call_page
    call_page-Safe page = record { holds = λ before p. (ground arith, only _ before refl p) }

    gathered-Safe :
        (rest : ℕ → List B → Exec World (List B))
        → ((page : ℕ) (out : List B) → Safe P (rest page out))
        → (out : List B) (found : List A × ℕ) → Safe P (gathered env ask convert rest out found)
    gathered-Safe rest safe out (items, zero) = Safe-pure _
    gathered-Safe rest safe out (items, suc next) = safe (suc next) _

    collect-Safe : (fuel page : ℕ) (out : List B) → Safe P (collect env ask convert fuel page out)
    unfolding collect
    collect-Safe zero page out = Safe-pure out
    collect-Safe (suc fuel) page out =
        Safe-bind _ _ (call_page-Safe page) (gathered-Safe _ (collect-Safe fuel) out)

  module _ (client : Client) where
    installation_client-Safe : (id : ℕ) → Safe P (installation_client env client id)
    unfolding installation_client
    installation_client-Safe id = record {
      holds = λ before p. elim (Bool-cases (has_client env client id before.clients)) [
        | inl known ↦ rw known (λ e. ground (arith, e), p)
        | inr new ↦ elim (Option-cases (env.new_client before.tick id)) [
          | inl fine ↦ rw (new, fine) (λ e. ground (arith, e), only _ before refl p)
          | inr (e, bad) ↦ rw (new, bad) (λ e. ground (arith, e), only _ before refl p)
        ]
      ];
    }

    call_installation-Safe : (id : ℕ) → Safe P (call_installation env client id)
    unfolding call_installation
    call_installation-Safe id = record { holds = λ before p. (ground arith, only _ before refl p) }

    pub get_installation_account-Safe : (id : ℕ) → Safe P (get_installation_account env client id)
    unfolding get_installation_account
    get_installation_account-Safe id =
        Safe-if _ _ _ (Safe-bind _ _ (call_installation-Safe id) (λ _. Safe-pure _)) (Safe-raise _)

    pub list_repositories-Safe : (id : ℕ) → Safe P (list_repositories env client id)
    unfolding list_repositories
    list_repositories-Safe id =
        Safe-if _ _ _
          (Safe-bind _ _ (installation_client-Safe id)
            (λ _. collect-Safe (λ t page. env.api_repositories t id page) to_repo max_pages 0 []))
          (Safe-raise _)

    branches_of-Safe :
        (id : ℕ) (names : Option (String × String)) → Safe P (branches_of env client id names)
    branches_of-Safe id none = Safe-raise _
    branches_of-Safe id (some (owner, name)) =
        Safe-bind _ _ (installation_client-Safe id) (λ _.
          collect-Safe (λ t page. env.api_branches t id owner name page) text_of max_pages 0 [])

    pub list_branches-Safe : (id : ℕ) (name : String) → Safe P (list_branches env client id name)
    unfolding list_branches
    list_branches-Safe id name = Safe-if _ _ _ (branches_of-Safe id _) (Safe-raise _)
