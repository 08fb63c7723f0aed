-- ===== src/Github/Client.antt =====
-- internal/infra/github/client.go. The SDK and the HTTP calls are answers of the environment; the map
-- of the installations' clients is a part of the world, by its keys. Its mutex makes each lookup one
-- step.
pub mod Listed
pub mod Silent
use Prim.Native.String.{◌++◌ as append}
use synthy.Prelude.{
  String, ℕ, zero, suc, Bool, false, ◌||◌, List, [], ◌∷◌, ◌++◌, map, Option, none, some, nat_eq,
  ◌==◌, if◌then◌else◌,
}
use synthy.Exec.{
  Exec, Result, ok, err, Error, message, not_configured, api_error, pure, raise, of_reply, ◌>>=◌,
  ◌>>◌,
}
use synthy.World.{
  World, Env, ApiReply, returned_api, failed_api, ApiFailure, ApiRepository, ticked, answer,
}

-- Client: whether the App is set up, and its slug
pub record Client : Type 0 where
  pub ok : Bool
  pub slug : String

pub record Repo : Type 0 where
  pub external_id : ℕ
  pub full_name : String
  pub name : String
  pub owner : String
  pub description : Option String
  pub is_private : Bool
  pub default_branch : String
  pub language : Option String
  pub html_url : String
  pub clone_url : String
  pub pushed_at : String

pub record InstallationAccount : Type 0 where
  pub login : String
  pub type : String

abbrev pub max_pages : ℕ
max_pages = 20

-- the getters of go-github
abbrev pub text_of : Option String → String
text_of none = ""
text_of (some s) = s

abbrev pub number_of : Option ℕ → ℕ
number_of none = 0
number_of (some n) = n

abbrev pub flag_of : Option Bool → Bool
flag_of none = false
flag_of (some b) = b

abbrev pub owner_of : Option (Option String) → String
owner_of none = ""
owner_of (some login) = text_of login

unfoldable pub to_repo : ApiRepository → Repo
to_repo r = record {
  external_id = number_of r.id;
  full_name = text_of r.full_name;
  name = text_of r.name;
  owner = owner_of r.owner;
  description = r.description;
  is_private = flag_of r.is_private;
  default_branch = text_of r.default_branch;
  language = r.language;
  html_url = text_of r.html_url;
  clone_url = text_of r.clone_url;
  pushed_at = text_of r.pushed_at;
}

abbrev pub known_status : ℕ → Option ℕ → ℕ
known_status zero inner = number_of inner
known_status (suc n) inner = suc n

-- what errors.As finds in the failure goes before what was known
abbrev normalise : ℕ → String → Option (Option ℕ × String) → Error
normalise status text none = api_error status text
normalise status text (some (inner, said)) =
    api_error (known_status status inner) (if said == "" then text else said)

unfoldable pub to_api_error : ApiFailure → Error
to_api_error f = normalise (number_of f.status) f.text f.error_response

-- strings.SplitN(s, "/", 2): the part before the first slash, and the part after it if there is one
unfoldable pub cut_slash : String → String × Option String
cut_slash String.[] = ("", none)
cut_slash (String.◌∷◌ c s) =
    let (front, back) = cut_slash s in
    if String.◌∷◌ c "" == "/" then ("", some s) else (String.◌∷◌ c front, back)

abbrev owner_and_name : String × Option String → Option (String × String)
owner_and_name (owner, none) = none
owner_and_name (owner, some name) = if owner == "" || name == "" then none else some (owner, name)

-- splitFullName
unfoldable pub split_full_name : String → Option (String × String)
unfolding cut_slash
split_full_name s = owner_and_name (cut_slash s)

abbrev pub of_api : {A : Type 0} → ApiReply A → Result A
of_api (returned_api a) = ok a
of_api (failed_api f) = err (to_api_error f)

module _ {A B : Type 0} (env : Env) (ask : ℕ → ℕ → ApiReply (List A × ℕ)) (convert : A → B) where
  unfoldable pub call_page : ℕ → Exec World (List A × ℕ)
  call_page page w = (of_api (ask w.tick page), ticked env w)

  abbrev pub gathered :
      (ℕ → List B → Exec World (List B)) → List B → List A × ℕ → Exec World (List B)
  gathered rest out (items, zero) = pure (out ++ map convert items)
  gathered rest out (items, suc next) = rest (suc next) (out ++ map convert items)

  -- The loop over the pages, for at most so many of them: what `ask` answers at a tick for a page is
  -- its items and the next page, 0 after the last.
  unfoldable pub collect : ℕ → ℕ → List B → Exec World (List B)
  unfolding call_page
  collect zero page out = pure out
  collect (suc fuel) page out = do found ← call_page page; gathered (collect fuel) out found

module _ (env : Env) (client : Client) where
  abbrev pub when_ok : {A : Type 0} → Exec World A → Exec World A
  when_ok m = if client.ok then m else raise not_configured

  unfoldable pub mint : ℕ → Exec World String
  mint id w = (of_reply (env.installation_token w.tick id), ticked env w)

  unfoldable pub installation_token : ℕ → Exec World String
  unfolding mint
  installation_token id = when_ok (mint id)

  abbrev pub has_client : ℕ → List ℕ → Bool
  has_client id [] = false
  has_client id (n ∷ ns) = nat_eq n id || has_client id ns

  abbrev remember : Option Error → ℕ → World → World
  remember none id w = record (ticked env w) { clients = id ∷ w.clients }
  remember (some e) id w = ticked env w

  -- installationClient
  unfoldable pub installation_client : ℕ → Exec World (Unit {0})
  installation_client id w =
      if has_client id w.clients
      then (ok tt, w)
      else (answer env (env.new_client w.tick id) tt, remember (env.new_client w.tick id) id w)

  abbrev account_of : Option String × Option String → InstallationAccount
  account_of (login, type) = record { login = text_of login; type = text_of type }

  unfoldable pub call_installation : ℕ → Exec World (Option String × Option String)
  call_installation id w = (of_api (env.api_installation w.tick id), ticked env w)

  unfoldable pub get_installation_account : ℕ → Exec World InstallationAccount
  unfolding call_installation
  get_installation_account id = when_ok do account ← call_installation id; pure (account_of account)

  unfoldable pub list_repositories : ℕ → Exec World (List Repo)
  unfolding installation_client collect
  list_repositories id = when_ok do
    installation_client id
    collect env (λ t page. env.api_repositories t id page) to_repo max_pages 0 []

  abbrev pub branches_of : ℕ → Option (String × String) → Exec World (List String)
  branches_of id none = raise (message "invalid repository name")
  branches_of id (some (owner, name)) = do
    installation_client id
    collect env (λ t page. env.api_branches t id owner name page) text_of max_pages 0 []

  unfoldable pub list_branches : ℕ → String → Exec World (List String)
  unfolding split_full_name installation_client collect
  list_branches id full_name = when_ok (branches_of id (split_full_name full_name))

  unfoldable pub install_url : String → Result String
  install_url state =
      if client.ok
      then ok (
          append (append "https://github.com/apps/" client.slug)
            (append "/installations/new?state=" (env.query_escape state)))
      else err not_configured
