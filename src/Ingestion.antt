-- ===== src/Ingestion.antt =====
-- internal/interface/mq/repositoryEventController.go: the consumer of repository events, one delivery
-- at a time.
pub mod Credentials
pub mod Steady
pub mod Settled
pub mod Left
pub mod Spared
pub mod Tenant
pub mod Undecoded
use synthy.Prelude.{
  String, ℕ, Bool, true, false, ◌&&◌, Option, none, some, not, nat_eq, ◌==◌, if◌then◌else◌,
}
use synthy.Exec.{Exec, message, pure, raise, attempt, wrapping, deferring, ◌>>=◌, ◌>>◌}
use synthy.Model.{Installation}
use synthy.Db.Rows.{get_by_installation_id}
use synthy.World.{World, Env, query}
use synthy.Changes.{IngestionMessage, IngestionEventType}
use synthy.Vectors.{Wiring}
use synthy.Pipeline.{RepositoryInput, process_repository}
use synthy.Text.{decimal}
use synthy.Github.Client.{Client, installation_token}
use synthy.Cloner.{Clone, clone, cleanup}
use synthy.Consumers.{fail, ack}

-- ProcessIngestionMessage
pub record IngestionDelivery : Type 0 where
  pub tag : ℕ
  pub message : IngestionMessage

abbrev pub is_incremental : IngestionEventType → Bool
is_incremental IngestionEventType.incremental_index = true
is_incremental IngestionEventType.full_index = false
is_incremental IngestionEventType.unset = false

unfoldable pub input_of : IngestionMessage → String → RepositoryInput
unfolding decimal
input_of m organization = record {
  organization_id = organization;
  external_id = decimal m.repository_id;
  name = m.repo_full_name;
  default_branch = m.default_branch;
  repository_url = m.clone_url;
  provider = m.provider;
  incremental = is_incremental m.event_type;
  changed_paths = m.changed_paths;
  removed_paths = m.removed_paths;
}

module _ (env : Env) (client : Client) (wiring : Wiring) where
  -- No installation, no token: the clone is anonymous.
  unfoldable pub token_for : IngestionMessage → Exec World String
  unfolding installation_token
  token_for m =
      if nat_eq m.installation_id 0
      then pure ""
      else wrapping "mint installation token" (installation_token env client m.installation_id)

  abbrev pub connected : Option Installation → Exec World String
  connected none = raise (message "no organization connected for installation")
  connected (some i) = pure i.organization_id

  -- the organization of the message, or else the one that connected its installation
  unfoldable pub organization_for : IngestionMessage → Exec World String
  unfolding query get_by_installation_id
  organization_for m =
      if m.organization_id == "" && not (nat_eq m.installation_id 0)
      then (do
        found ←
            wrapping "get installation by id" (query env (get_by_installation_id m.installation_id))
        connected found)
      else pure m.organization_id

  unfoldable pub index_clone : IngestionMessage → String → Clone → Exec World (Unit {0})
  unfolding process_repository input_of cleanup
  index_clone m organization made =
      deferring
        (wrapping "process repository"
          (process_repository env wiring made.path (input_of m organization)))
        (cleanup env made.parent)

  abbrev pub index_for : IngestionMessage → String → String → Exec World (Unit {0})
  index_for m token organization =
      if organization == ""
      then raise (message "cannot index: no organization id on the event")
      else (do
        made ←
            wrapping "clone repository"
              (clone env m.clone_url m.default_branch m.repo_full_name token)
        index_clone m organization made)

  unfoldable pub handle : IngestionMessage → Exec World (Unit {0})
  unfolding token_for organization_for clone index_clone
  handle m = do
    token ← token_for m
    organization ← organization_for m
    index_for m token organization

  abbrev pub handled : ℕ → Option (Unit {0}) → Exec World (Unit {0})
  handled tag none = fail env tag
  handled tag (some _) = ack env tag

  -- The loop body of RepositoryEventController.Start.
  unfoldable pub handle_delivery : IngestionDelivery → Exec World (Unit {0})
  handle_delivery d = do done ← attempt (handle d.message); handled d.tag done
