-- ===== src/Tests/Ingested.antt =====
-- Deliveries of repository events, and clones.
use synthy.Prelude.{◌≡◌, refl, [], ◌∷◌, some, true, false, String_discrete, contains, exists}
use synthy.Exec.{ok, err, message, detailed, on_error, ◌>>=◌}
use synthy.Db.Rows.{upsert_installation}
use synthy.Model.{RepositoryProvider}
use synthy.World.{Env}
use synthy.Text.{occurs}
use synthy.Changes.{IngestionMessage, IngestionEventType}
use synthy.Github.Client.{Client}
use synthy.Github.Service.{connect, ConnectionView}
use synthy.Cloner.{clone}
use synthy.Cloner.Secret.{clone_redacts}
use synthy.Ingestion.{IngestionDelivery, handle_delivery, organization_for}
use synthy.Ingestion.Left.{handle_delivery_leaves_nothing}
use synthy.Ingestion.Tenant.{connect_then_organization_for}
use synthy.Tests.Fixtures.{quiet, indexed, wired}

abbrev github_client : Client
github_client = record { ok = true; slug = "synthy" }

-- A webhook's event, which names no organization.
abbrev event : IngestionMessage
event = record {
  provider = RepositoryProvider.github;
  event_type = IngestionEventType.incremental_index;
  repository_id = 70;
  repo_full_name = "acme/r";
  default_branch = "main";
  clone_url = "https://example.invalid/r.git";
  installation_id = 77;
  organization_id = "";
  changed_paths = "edit.go" ∷ [];
  removed_paths = [];
}

abbrev delivery : IngestionDelivery
delivery = record { tag = 9; message = event }

-- git prints the token and fails.
abbrev no_git : Env
no_git = record quiet {
  run_git = λ n args. some (message "exit status 128", "no access with ghs to r.git");
}

handle_delivery_leaves_nothing_example :
    (handle_delivery no_git github_client wired delivery indexed).1.clones ≡ []
unfolding contains exists
handle_delivery_leaves_nothing_example =
    handle_delivery_leaves_nothing no_git github_client wired delivery indexed (λ t. refl)
      (λ t dir e. refl)

failed_clone :
    (clone no_git "https://example.invalid/r.git" "main" "acme/r" "ghs" indexed).0
    ≡ err (detailed "git clone failed" (message "exit status 128") "no access with *** to r.git")
unfolding clone String_discrete ◌>>=◌ on_error
failed_clone = refl

clone_redacts_example : occurs "ghs" "no access with *** to r.git" ≡ false
clone_redacts_example =
    clone_redacts no_git "https://example.invalid/r.git" "main" "ghs" refl refl "acme/r" indexed
      failed_clone

abbrev acme : ConnectionView
acme = record { configured = true; connected = true; account_login = "acme"; installation_id = 77 }

connects : (connect quiet github_client "o" 77 indexed).0 ≡ ok acme
unfolding connect String_discrete ◌>>=◌ upsert_installation exists
connects = refl

connect_then_organization_for_example :
    (organization_for quiet github_client wired event
      (connect quiet github_client "o" 77 indexed).1).0
    ≡ ok "o"
connect_then_organization_for_example =
    connect_then_organization_for quiet github_client wired "o" 77 acme event indexed
      (connect quiet github_client "o" 77 indexed).1 connects refl refl refl refl refl
