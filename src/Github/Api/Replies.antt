-- ===== src/Github/Api/Replies.antt =====
-- What a caller hears of a failure of the GitHub API.
use synthy.Prelude.{
  String, ℕ, suc, ◌≡◌, refl, arith, ◌≤◌, ◌<◌, true, List, Option, none, some, zero, inl, inr,
  Option-cases, if◌then◌else◌, ◌==◌, length,
}
use Prim.Native.String.{◌++◌ as append}
use synthy.Exec.{api_error, ok, returned, pure, ◌>>=◌}
use synthy.Db.Rows.{get_by_organization}
use synthy.Model.{Installation}
use synthy.World.{World, Env, ApiFailure, ApiRepository, query, ticked}
use synthy.Github.Client.{Client, known_status, installation_client, to_api_error}
use synthy.Github.Client.Listed.{Listing, list_repositories-Listing, reached}
use synthy.Github.Service.{list_repositories, require_installation}
use synthy.Github.Api.{Caller, HttpReply, handle_repositories, github_error}

client_error :
    (status : ℕ) (text : String)
    → 400 ≤ status
    → status < 500
    → github_error (api_error status text) ≡ HttpReply.http_error status (append "GitHub: " text)
unfolding github_error
client_error status text low high = ground arith

known_client_error :
    (status : ℕ) (inner : Option ℕ) → 400 ≤ status → known_status status inner ≡ status
known_client_error zero inner low = ground arith
known_client_error (suc n) inner low = refl

-- A status of GitHub from 400 to 499 goes on to the caller.
github_error-to_api_error :
    (f : ApiFailure) (status : ℕ)
    → f.status ≡ some status
    → 400 ≤ status
    → status < 500
    → (text : String) × (github_error (to_api_error f) ≡ HttpReply.http_error status text)
unfolding to_api_error
github_error-to_api_error f status known low high = elim (Option-cases f.error_response) [
  | inl plain ↦ (append "GitHub: " f.text, rw (known, plain) (client_error status f.text low high))
  | inr ((inner, said), response) ↦ (
    append "GitHub: " (if said == "" then f.text else said),
    rw (known, response, known_client_error status inner low) (client_error status _ low high),
  )
]

reached_few :
    {A : Type 0} (pages : List (List A)) (f : ApiFailure)
    → length pages < 20
    → reached 20 pages (some f) ≡ some f
reached_few pages f few = ground arith

required :
    (env : Env) (client : Client) (o : String) (i : Installation) (w : World)
    → client.ok ≡ true
    → env.db_fault w.tick ≡ none
    → get_by_organization o w.db ≡ some i
    → require_installation env client o w ≡ (ok i, ticked env w)
unfolding require_installation query pure ◌>>=◌
required env client o i w on fine found = rw (on, fine, found) refl

-- If a member's organization is connected, and the API lists the repositories of its installation
-- until it fails with a status from 400 to 499 on one of the first 20 pages, then listing them
-- replies with this status.
pub handle_repositories_passes_status :
    (env : Env) (client : Client) (caller : Caller) (o : String) (i : Installation) (status : ℕ)
    {pages : List (List ApiRepository)} {f : ApiFailure} (w : World)
    → caller.member ≡ returned o
    → client.ok ≡ true
    → env.db_fault w.tick ≡ none
    → get_by_organization o w.db ≡ some i
    → (installation_client env client i.installation_id (ticked env w)).0 ≡ ok tt
    → Listing
        (λ t page. env.api_repositories t i.installation_id page)
        (installation_client env client i.installation_id (ticked env w)).1.tick
        0
        pages
        (some f)
    → length pages < 20
    → f.status ≡ some status
    → 400 ≤ status
    → status < 500
    → (text : String) × ((handle_repositories env client caller w).0
        ≡ HttpReply.http_error status text)
unfolding handle_repositories list_repositories ◌>>=◌
handle_repositories_passes_status env client caller o i status {pages} {f} w member on fine found
      known l few said low high =
    let (text, reply) = github_error-to_api_error f status said low high in
    let answer = list_repositories-Listing env client i.installation_id (ticked env w) on known l in
    (
      text,
      rw (member, required env client o i w on fine found, answer, reached_few pages f few) reply,
    )
