-- ===== src/Tests/Configured.antt =====
-- The GitHub App from the process's environment.
use synthy.Prelude.{String, ◌≡◌, refl, true, none, ◌==◌, if◌then◌else◌, String_discrete}
use synthy.Exec.{returned}
use synthy.Github.Config.{Process, new_client, new_config_from_env, read_private_key_pem}

abbrev variables : String → String
variables key =
    if key == "GITHUB_APP_ID"
    then " 42 "
    else if key == "GITHUB_APP_SLUG"
    then "synthy"
    else if key == "GITHUB_APP_PRIVATE_KEY"
    then "begin\\nkey"
    else ""

abbrev process : Process
process = record {
  getenv = variables;
  read_file = λ path. returned "";
  parses_key = λ pem. pem == "begin\nkey";
  parses_int = λ s. s == "42";
  client_fault = none;
}

set_up : (new_client process (new_config_from_env process)).ok ≡ true
unfolding new_client new_config_from_env read_private_key_pem String_discrete
set_up = refl
