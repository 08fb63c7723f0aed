-- ===== src/Github/Config.antt =====
-- internal/infra/github/config.go, and NewClient of internal/infra/github/client.go: whether the App
-- is set up. The process's environment, its files and the parsers of numbers and keys are parameters.
use synthy.Prelude.{
  String, ◌≡◌, arith, Bool, true, false, ◌||◌, Option, none, some, not, ◌==◌, if◌then◌else◌,
}
use synthy.Exec.{Error, Reply, returned, failed}
use synthy.Text.{trim_space, replace_all}
use synthy.Github.Client.{Client}

pub record Config : Type 0 where
  pub app_id : String
  pub slug : String
  pub configured : Bool

-- os.Getenv, os.ReadFile, jwt.ParseRSAPrivateKeyFromPEM, strconv.ParseInt and the failure of
-- github.NewClient
pub record Process : Type 0 where
  pub getenv : String → String
  pub read_file : String → Reply String
  pub parses_key : String → Bool
  pub parses_int : String → Bool
  pub client_fault : Option Error

abbrev pub unconfigured : Config
unconfigured = record { app_id = ""; slug = ""; configured = false }

module _ (process : Process) where
  unfoldable pub read_private_key_pem : Reply String
  unfolding trim_space replace_all
  read_private_key_pem =
      let path = trim_space (process.getenv "GITHUB_APP_PRIVATE_KEY_PATH") in
      let inline = process.getenv "GITHUB_APP_PRIVATE_KEY" in
      if not (path == "")
      then process.read_file path
      else if not (trim_space inline == "")
      then returned (replace_all inline "\\n" "\n")
      else returned ""

  abbrev pub checked : String → String → Reply String → Config
  checked app_id slug (failed e) = unconfigured
  checked app_id slug (returned pem) =
      if app_id == "" || slug == "" || pem == ""
      then unconfigured
      else if process.parses_key pem
      then record { app_id = app_id; slug = slug; configured = true }
      else unconfigured

  unfoldable pub new_config_from_env : Config
  new_config_from_env =
      checked (trim_space (process.getenv "GITHUB_APP_ID"))
        (trim_space (process.getenv "GITHUB_APP_SLUG")) read_private_key_pem

  abbrev pub built : Option Error → Bool
  built none = true
  built (some e) = false

  unfoldable pub new_client : Config → Client
  new_client cfg = record {
    ok =
        if not cfg.configured
        then false
        else if not (process.parses_int cfg.app_id)
        then false
        else built process.client_fault;
    slug = cfg.slug;
  }

  checked-configured :
      (app_id slug : String) (pem : Reply String)
      → (checked app_id slug pem).configured ≡ true
      → ((checked app_id slug pem).app_id ≡ app_id)
        × ((checked app_id slug pem).slug ≡ slug)
        × ((app_id == "") ≡ false)
        × ((slug == "") ≡ false)
  checked-configured app_id slug (failed e) h = ground (arith, h)
  checked-configured app_id slug (returned pem) h = ground arith

  new_client-ok :
      (cfg : Config)
      → (new_client cfg).ok ≡ true
      → (cfg.configured ≡ true) × (process.parses_int cfg.app_id ≡ true)
  unfolding new_client
  new_client-ok cfg set = ground arith

  -- The client is set up only if GITHUB_APP_ID, without the spaces around it, is a number, and
  -- GITHUB_APP_SLUG holds more than spaces, which it has then without the spaces around it.
  new_client-new_config_from_env :
      (new_client new_config_from_env).ok ≡ true
      → (process.parses_int (trim_space (process.getenv "GITHUB_APP_ID")) ≡ true)
        × ((new_client new_config_from_env).slug ≡ trim_space (process.getenv "GITHUB_APP_SLUG"))
        × (((new_client new_config_from_env).slug == "") ≡ false)
  unfolding new_client new_config_from_env
  new_client-new_config_from_env set =
      let app_id = trim_space (process.getenv "GITHUB_APP_ID") in
      let slug = trim_space (process.getenv "GITHUB_APP_SLUG") in
      let (configured, numeric) = new_client-ok new_config_from_env set in
      let (same_id, same_slug, _, full) =
        checked-configured app_id slug read_private_key_pem configured in
      (rw same_id at numeric, same_slug, rw same_slug full)
