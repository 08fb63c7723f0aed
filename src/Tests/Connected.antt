-- ===== src/Tests/Connected.antt =====
-- An organization's connection to GitHub.
use synthy.Prelude.{
  String, ℕ, zero, suc, ◌≡◌, refl, sym, ◌⊎◌, inl, inr, [], ◌∷◌, List, some, none, true, false,
  arith, ◌==◌, find, String_discrete,
}
use synthy.Exec.{ok, returned, failed, message}
use synthy.Model.{Installation}
use synthy.World.{World, Env, ApiReply, ApiFailure, ApiRepository, returned_api, failed_api}
use synthy.Db.Rows.{get_by_organization}
use synthy.Github.Client.{Client, to_repo, list_repositories, installation_client}
use synthy.Github.Client.Listed.{Listing, list_repositories-Listing}
use synthy.Github.Service.{connect, disconnect, index_connected_repositories}
use synthy.Github.Service.Connection.{
  Connected, Disconnected, connect_refines, disconnect_refines, seen,
}
use synthy.Github.Service.Queued.{IndexRequested, index_connected_repositories-Publishes}
use synthy.Github.Service.Isolated.{messages_for}
use synthy.Github.Api.{Caller, Request, HttpReply, serve, handle_repositories}
use synthy.Github.Api.Isolated.{serve-Isolated}
use synthy.Github.Api.Replies.{handle_repositories_passes_status}
use synthy.Tests.Fixtures.{quiet, indexed}

abbrev github_client : Client
github_client = record { ok = true; slug = "synthy" }

abbrev api_repository : ℕ → String → ApiRepository
api_repository id full_name = record {
  id = some id;
  name = some "r";
  full_name = some full_name;
  owner = some (some "acme");
  description = none;
  is_private = none;
  default_branch = some "main";
  language = none;
  html_url = none;
  clone_url = some "https://example.invalid/r.git";
  pushed_at = none;
}

-- Two pages of repositories; the second is numbered 2.
abbrev two_pages : ℕ → ApiReply (List ApiRepository × ℕ)
two_pages zero = returned_api (api_repository 1 "acme/a" ∷ [], 2)
two_pages (suc page) = returned_api (api_repository 2 "acme/b" ∷ [], 0)

abbrev paged : Env
paged = record quiet { api_repositories = λ t id page. two_pages page }

abbrev revoked_failure : ApiFailure
revoked_failure = record { status = some 404; text = "404 Not Found"; error_response = none }

abbrev revoked : Env
revoked = record quiet { api_repositories = λ t id page. failed_api revoked_failure }

abbrev installation : Installation
installation = record {
  id = "ghi_0";
  organization_id = "o";
  installation_id = 77;
  account_login = "acme";
  account_type = "Organization";
  created_at = 1;
  updated_at = 1;
}

abbrev linked : World
linked = record indexed { db = record indexed.db { installations = installation ∷ [] } }

-- a manager of the organization "m"
abbrev manager_of_m : Caller
manager_of_m = record { member = returned "m"; manager = returned "m" }

abbrev member_of_o : Caller
member_of_o = record { member = returned "o"; manager = failed (message "not a manager") }

list_repositories-Listing_example :
    (list_repositories paged github_client 77 indexed).0
    ≡ ok (to_repo (api_repository 1 "acme/a") ∷ to_repo (api_repository 2 "acme/b") ∷ [])
unfolding installation_client
list_repositories-Listing_example =
    list_repositories-Listing paged github_client 77 indexed refl refl (
      Listing.next 1 0 (api_repository 1 "acme/a" ∷ []) 1 _ none refl
        (Listing.last 2 2 (api_repository 2 "acme/b" ∷ []) refl))

connect_refines_example : Connected "m" "o" 78 linked.db (connect quiet github_client "m" 78 linked)
connect_refines_example = connect_refines quiet github_client "m" "o" 78 linked

disconnect_refines_example :
    Disconnected "o" "m" linked.db (disconnect quiet github_client "o" linked)
disconnect_refines_example = disconnect_refines quiet github_client "o" "m" linked

index_connected_repositories-Publishes_example :
    IndexRequested paged github_client "o" linked
      (index_connected_repositories paged github_client "o" linked)
index_connected_repositories-Publishes_example =
    index_connected_repositories-Publishes paged github_client "o" linked

m_is_not_o : ("o" == "m") ≡ false
unfolding String_discrete
m_is_not_o = refl

returned_other : (o : String) → returned "m" ≡ returned o → ("o" == o) ≡ false
returned_other o e = let same : "m" ≡ o = ground (arith, e) in rw (sym same) m_is_not_o

elsewhere :
    (o : String)
    → (manager_of_m.member ≡ returned o) ⊎ (manager_of_m.manager ≡ returned o)
    → ("o" == o) ≡ false
elsewhere o (inl e) = returned_other o e
elsewhere o (inr e) = returned_other o e

serve-Isolated_example :
    (seen "o" (serve quiet github_client manager_of_m Request.delete_connection linked).1.db
      ≡ seen "o" linked.db)
    × (messages_for "o"
          (serve quiet github_client manager_of_m Request.delete_connection linked).1.queued
        ≡ messages_for "o" linked.queued)
serve-Isolated_example =
    serve-Isolated "o" quiet github_client manager_of_m Request.delete_connection linked elsewhere

connected_row : get_by_organization "o" linked.db ≡ some installation
unfolding get_by_organization find String_discrete
connected_row = refl

handle_repositories_passes_status_example :
    (text : String) × ((handle_repositories revoked github_client member_of_o linked).0
      ≡ HttpReply.http_error 404 text)
unfolding installation_client
handle_repositories_passes_status_example =
    handle_repositories_passes_status revoked github_client member_of_o "o" installation 404 linked
      refl refl refl connected_row refl (Listing.broken 2 0 revoked_failure refl) (omega arith) refl
      (omega arith) (omega arith)
