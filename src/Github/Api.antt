-- ===== src/Github/Api.antt =====
-- internal/interface/api: the HTTP handlers of the GitHub integration, and the status of their errors.
-- The middleware and the binding of requests belong to other packages, so what they answer comes
-- with the request.
pub mod Steps
pub mod Isolated
pub mod Replies
use synthy.Prelude.{
  String, ℕ, Bool, true, false, ◌&&◌, List, Option, none, some, not, nat_eq, leb, ltb, ◌==◌,
  if◌then◌else◌,
}
use Prim.Native.String.{◌++◌ as append}
use synthy.Exec.{Result, ok, err, panic, Error, Reply, returned, failed}
use synthy.World.{World, Env}
use synthy.Text.{trim_space}
use synthy.Github.Client.{Client, Repo}
use synthy.Github.Service.{
  ConnectionView, IndexedRepositoryView, connection, install_url, connect, disconnect,
  list_repositories, list_indexed_repositories, list_branches, index_connected_repositories,
}

pub data Body : Type 0 where
  connection_body : ConnectionView → Body
  url_body : String → Body
  repositories_body : List Repo → Body
  indexed_body : List IndexedRepositoryView → Body
  branches_body : List String → Body
  queued_body : ℕ → Body

-- What a handler returns: a response, or an error of jwtauth, vhttp or echo.
pub data HttpReply : Type 0 where
  json : ℕ → Body → HttpReply
  no_content : HttpReply
  unauthorised : Error → HttpReply
  bad_request forbidden service_unavailable not_found bad_gateway internal : String → HttpReply
  http_error : ℕ → String → HttpReply
  crashed : HttpReply

-- errors.Is
abbrev pub is_not_configured : Error → Bool
is_not_configured Error.not_configured = true
is_not_configured (Error.wrap context e) = is_not_configured e
is_not_configured (Error.detailed context e text) = is_not_configured e
is_not_configured Error.not_connected = false
is_not_configured (Error.message text) = false
is_not_configured (Error.api_error status text) = false

abbrev pub is_not_connected : Error → Bool
is_not_connected Error.not_connected = true
is_not_connected (Error.wrap context e) = is_not_connected e
is_not_connected (Error.detailed context e text) = is_not_connected e
is_not_connected Error.not_configured = false
is_not_connected (Error.message text) = false
is_not_connected (Error.api_error status text) = false

-- errors.As
abbrev pub find_api_error : Error → Option (ℕ × String)
find_api_error (Error.api_error status text) = some (status, text)
find_api_error (Error.wrap context e) = find_api_error e
find_api_error (Error.detailed context e text) = find_api_error e
find_api_error Error.not_configured = none
find_api_error Error.not_connected = none
find_api_error (Error.message text) = none

abbrev pub api_reply : Option (ℕ × String) → HttpReply
api_reply none = internal "internal server error"
api_reply (some (status, text)) =
    if leb 400 status && ltb status 500
    then http_error status (append "GitHub: " text)
    else bad_gateway (append "GitHub request failed: " text)

unfoldable pub github_error : Error → HttpReply
github_error e =
    if is_not_configured e
    then service_unavailable "GitHub App is not configured on the server"
    else if is_not_connected e
    then not_found "GitHub is not connected for this organization"
    else api_reply (find_api_error e)

-- the answers of jwtauth.RequireMember and jwtauth.RequireManager: the caller's organization
pub record Caller : Type 0 where
  pub member : Reply String
  pub manager : Reply String

-- `none` if the body does not bind
pub record ConnectRequest : Type 0 where
  pub installation_id : ℕ
  pub state : String

-- the routes of Register
pub data Request : Type 0 where
  get_connection get_install_url delete_connection get_repositories get_indexed post_index : Request
  post_connect : Option ConnectRequest → Request
  get_branches : String → Request

abbrev pub Handler : Type 0
Handler = World → HttpReply × World

abbrev pub respond : {A : Type 0} → (A → HttpReply) → Result A × World → HttpReply × World
respond f (ok a, w) = (f a, w)
respond f (err e, w) = (github_error e, w)
respond f (panic, w) = (crashed, w)

-- `if err != nil { return err }` after the middleware
abbrev pub authorised : Reply String → (String → Handler) → Handler
authorised (returned organization) f w = f organization w
authorised (failed e) f w = (unauthorised e, w)

module _ (env : Env) (client : Client) (caller : Caller) where
  unfoldable pub handle_connection : Handler
  handle_connection = authorised caller.member λ organization w.
      respond (λ view. json 200 (connection_body view)) (connection env client organization w)

  unfoldable pub handle_install_url : Handler
  handle_install_url = authorised caller.manager λ organization w.
      respond (λ link. json 200 (url_body link)) (install_url env client organization, w)

  abbrev pub connect_checked : String → ConnectRequest → Handler
  connect_checked organization req w =
      if nat_eq req.installation_id 0
      then (bad_request "installation_id is required", w)
      else if not (req.state == "") && not (req.state == organization)
      then (forbidden "installation belongs to a different organization", w)
      else respond (λ view. json 200 (connection_body view))
          (connect env client organization req.installation_id w)

  abbrev pub bound : String → Option ConnectRequest → Handler
  bound organization none w = (bad_request "invalid request body", w)
  bound organization (some req) w = connect_checked organization req w

  unfoldable pub handle_connect : Option ConnectRequest → Handler
  handle_connect req = authorised caller.manager λ organization. bound organization req

  unfoldable pub handle_disconnect : Handler
  handle_disconnect =
      authorised caller.manager
        λ organization w. respond (λ _. no_content) (disconnect env client organization w)

  unfoldable pub handle_repositories : Handler
  handle_repositories = authorised caller.member λ organization w.
      respond (λ repos. json 200 (repositories_body repos))
        (list_repositories env client organization w)

  unfoldable pub handle_indexed_repositories : Handler
  handle_indexed_repositories = authorised caller.member λ organization w.
      respond (λ repos. json 200 (indexed_body repos))
        (list_indexed_repositories env client organization w)

  abbrev pub branches_checked : String → String → Handler
  branches_checked organization repo w =
      if repo == ""
      then (bad_request "repo query parameter is required", w)
      else respond (λ names. json 200 (branches_body names))
          (list_branches env client organization repo w)

  -- with the query parameter `repo`
  unfoldable pub handle_branches : String → Handler
  handle_branches param =
      authorised caller.member λ organization. branches_checked organization (trim_space param)

  unfoldable pub handle_index : Handler
  handle_index = authorised caller.manager λ organization w.
      respond (λ queued. json 202 (queued_body queued))
        (index_connected_repositories env client organization w)

  -- Register: the handler of each route
  unfoldable pub serve : Request → Handler
  serve Request.get_connection = handle_connection
  serve Request.get_install_url = handle_install_url
  serve (Request.post_connect req) = handle_connect req
  serve Request.delete_connection = handle_disconnect
  serve Request.get_repositories = handle_repositories
  serve Request.get_indexed = handle_indexed_repositories
  serve (Request.get_branches param) = handle_branches param
  serve Request.post_index = handle_index
