-- ===== src/Github/Service.antt =====
-- internal/usecase/github/service.go: an organization's connection to the GitHub App, and the requests
-- to index its repositories.
pub mod Connection
pub mod Queued
pub mod Steps
pub mod Isolated
use synthy.Prelude.{
  String, ℕ, suc, Bool, true, false, List, [], ◌∷◌, ◌++◌, map, Option, none, some, if◌then◌else◌,
}
use synthy.Exec.{
  Exec, Result, ok, err, Error, not_configured, not_connected, pure, raise, of_reply, wrapping,
  ◌>>=◌, ◌>>◌,
}
use synthy.Model.{Installation, Repository, RepositoryProvider}
use synthy.Db.Rows.{
  get_by_organization, upsert_installation, delete_by_organization,
  list_repositories_by_organization_id,
}
use synthy.World.{World, Env, query, statement, execute, time_now, ticked, answer}
use synthy.Changes.{IngestionMessage, IngestionEventType, to_proto}
use synthy.Changes.Proto.{RepositoryEventMessage}
use synthy.Github.Client.{
  Client, Repo, InstallationAccount, text_of, get_installation_account,
  install_url as client_install_url, list_repositories as client_list_repositories,
  list_branches as client_list_branches,
}

pub record IndexedRepositoryView : Type 0 where
  pub id : String
  pub external_id : String
  pub full_name : String
  pub description : String
  pub default_branch : String
  pub provider : RepositoryProvider
  pub repository_url : String
  pub state : String
  pub indexed_at : ℕ

pub record ConnectionView : Type 0 where
  pub configured : Bool
  pub connected : Bool
  pub account_login : String
  pub installation_id : ℕ

abbrev pub view_of : Option Installation → ConnectionView
view_of none = record {
  configured = true;
  connected = false;
  account_login = "";
  installation_id = 0;
}
view_of (some i) = record {
  configured = true;
  connected = true;
  account_login = i.account_login;
  installation_id = i.installation_id;
}

abbrev pub unconfigured_view : ConnectionView
unconfigured_view = record {
  configured = false;
  connected = false;
  account_login = "";
  installation_id = 0;
}

-- core.IDPrefix
abbrev pub id_prefix : String
id_prefix = "ghi"

abbrev pub installation_of : String → ℕ → InstallationAccount → ℕ → String → Installation
installation_of organization id account now row_id = record {
  id = row_id;
  organization_id = organization;
  installation_id = id;
  account_login = account.login;
  account_type = account.type;
  created_at = now;
  updated_at = now;
}

-- the message that asks for a full index of a repository
abbrev pub index_message : String → ℕ → Repo → IngestionMessage
index_message organization installation_id repo = record {
  provider = RepositoryProvider.github;
  event_type = IngestionEventType.full_index;
  repository_id = repo.external_id;
  repo_full_name = repo.full_name;
  default_branch = repo.default_branch;
  clone_url = repo.clone_url;
  installation_id = installation_id;
  organization_id = organization;
  changed_paths = [];
  removed_paths = [];
}

abbrev pub indexed_view : Repository → IndexedRepositoryView
indexed_view repo = record {
  id = repo.id;
  external_id = repo.external_id;
  full_name = repo.name;
  description = text_of repo.description;
  default_branch = repo.default_branch;
  provider = repo.provider;
  repository_url = repo.repository_url;
  state = "indexed";
  indexed_at = repo.updated_at;
}

module _ (env : Env) (client : Client) where
  abbrev enqueue_event : Option Error → RepositoryEventMessage → World → World
  enqueue_event none m w = record (ticked env w) { queued = w.queued ++ m ∷ [] }
  enqueue_event (some _) m w = ticked env w

  -- Publish of internal/infra/rabbimq/repositoryEventPublisher.go
  unfoldable pub publish_event : IngestionMessage → Exec World (Unit {0})
  unfolding to_proto
  publish_event m w = (
    answer env (env.event_fault w.tick) tt,
    enqueue_event (env.event_fault w.tick) (to_proto m) w,
  )

  unfoldable pub publish : IngestionMessage → Exec World (Unit {0})
  unfolding publish_event
  publish m = wrapping "failed to publish message" (publish_event m)

  unfoldable pub new_installation_id : Exec World String
  new_installation_id w = (of_reply (env.new_id w.tick id_prefix), ticked env w)

  unfoldable pub install_url : String → Result String
  unfolding client_install_url
  install_url organization =
      if client.ok then client_install_url env client organization else err not_configured

  unfoldable pub connect : String → ℕ → Exec World ConnectionView
  unfolding get_installation_account time_now statement new_installation_id
  connect organization id =
      if client.ok
      then (do
        account ← get_installation_account env client id
        now ← time_now env
        row_id ← new_installation_id
        statement env (upsert_installation (installation_of organization id account now row_id))
        pure (view_of (some (installation_of organization id account now row_id))))
      else raise not_configured

  unfoldable pub connection : String → Exec World ConnectionView
  unfolding query get_by_organization
  connection organization =
      if client.ok
      then (do found ← query env (get_by_organization organization); pure (view_of found))
      else pure unconfigured_view

  unfoldable pub disconnect : String → Exec World (Unit {0})
  unfolding execute delete_by_organization
  disconnect organization = execute env (delete_by_organization organization)

  abbrev pub connected : Option Installation → Exec World Installation
  connected none = raise not_connected
  connected (some i) = pure i

  unfoldable pub require_installation : String → Exec World Installation
  require_installation organization =
      if client.ok
      then (do found ← query env (get_by_organization organization); connected found)
      else raise not_configured

  unfoldable pub list_repositories : String → Exec World (List Repo)
  list_repositories organization = do
    installation ← require_installation organization
    client_list_repositories env client installation.installation_id

  unfoldable pub list_branches : String → String → Exec World (List String)
  list_branches organization repo_full_name = do
    installation ← require_installation organization
    client_list_branches env client installation.installation_id repo_full_name

  -- The loop over the repositories. The number of messages published so far comes back beside an
  -- error too, and its only caller drops it there.
  unfoldable pub publish_each : String → ℕ → ℕ → List Repo → Exec World ℕ
  publish_each organization id published [] = pure published
  publish_each organization id published (repo ∷ repos) =
      publish (index_message organization id repo)
      >> publish_each organization id (suc published) repos

  unfoldable pub index_connected_repositories : String → Exec World ℕ
  index_connected_repositories organization = do
    installation ← require_installation organization
    repos ← client_list_repositories env client installation.installation_id
    publish_each organization installation.installation_id 0 repos

  unfoldable pub list_indexed_repositories : String → Exec World (List IndexedRepositoryView)
  list_indexed_repositories organization = do
    repos ← query env (list_repositories_by_organization_id organization)
    pure (map indexed_view repos)
