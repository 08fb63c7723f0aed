-- ===== src/Tests/Pushes.antt =====
-- Messages and the net effect of a push.
use synthy.Prelude.{
  String, ◌≡◌, refl, true, false, [], ◌∷◌, none, some, contains, ◌&&◌, Distinct, String_discrete,
}
use synthy.Exec.{ok}
use synthy.Model.{RepositoryProvider}
use synthy.Changes.Proto.{Provider, EventType, RepositoryEventMessage}
use synthy.Changes.{IngestionMessage, IngestionEventType, net_file_changes, from_proto, to_proto}
use synthy.Changes.Net.{net_file_changes_last, net_file_changes_disjoint}
use synthy.Changes.Conversion.{from_proto-to_proto}

abbrev event : RepositoryEventMessage
event = record {
  provider = Provider.github;
  event_type = EventType.incremental_index;
  repository = none;
  installation_id = 5;
  organization_id = "";
  commits =
      some (record { added = "tmp.go" ∷ []; modified = "a.go" ∷ []; removed = [] })
      ∷ none
      ∷ some (record { added = []; modified = "b.go" ∷ []; removed = "tmp.go" ∷ [] })
      ∷ [];
  head_commit = none;
}

net_of_event : net_file_changes event ≡ ("a.go" ∷ "b.go" ∷ [], "tmp.go" ∷ [])
unfolding net_file_changes String_discrete
net_of_event = refl

net_file_changes_last_example :
    (contains "tmp.go" (net_file_changes event).0 ≡ false)
    × (contains "tmp.go" (net_file_changes event).1 ≡ true)
unfolding String_discrete
net_file_changes_last_example = net_file_changes_last event "tmp.go"

net_file_changes_disjoint_example :
    Distinct (net_file_changes event).0
    × Distinct (net_file_changes event).1
    × ((path : String)
        → (contains path (net_file_changes event).0 && contains path (net_file_changes event).1)
          ≡ false)
net_file_changes_disjoint_example = net_file_changes_disjoint event

abbrev ingestion : IngestionMessage
ingestion = record {
  provider = RepositoryProvider.github;
  event_type = IngestionEventType.incremental_index;
  repository_id = 7;
  repo_full_name = "acme/r";
  default_branch = "main";
  clone_url = "https://example.invalid/r.git";
  installation_id = 5;
  organization_id = "o";
  changed_paths = "a.go" ∷ [];
  removed_paths = [];
}

from_proto-to_proto_example :
    from_proto (some (to_proto ingestion)) ≡ ok (record ingestion { changed_paths = [] })
from_proto-to_proto_example = from_proto-to_proto ingestion
