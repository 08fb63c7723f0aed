-- ===== src/Tests/Subscribed.antt =====
-- A subscriber that gets two deliveries, one of which cannot be unmarshalled, and stops.
use synthy.Prelude.{ℕ, ◌≡◌, refl, ◌≤◌, List, [], ◌∷◌, ◌++◌, length, none, false, true, ◌+◌, ◌*◌}
use synthy.Exec.{ok, returned, failed, message}
use synthy.Changes.Proto.{RepositoryEventMessage, Provider, EventType}
use synthy.World.{nacked}
use synthy.Github.Client.{Client}
use synthy.Subscribers.{Feed, Event, Phase, Step, Run, started, decode_event}
use synthy.Subscribers.Conserved.{Run-conserves, count, arrived, accounted}
use synthy.Subscribers.Ended.{Run-ends, CanEnd}
use synthy.Subscribers.Ordered.{Run-hands_over_in_order, decoded}
use synthy.Ingestion.{handle_delivery}
use synthy.Ingestion.Undecoded.{missing_repository_rejected}
use synthy.Tests.Fixtures.{quiet, indexed, wired}

abbrev twice : ℕ → ℕ
twice n = n + n

abbrev fed : Feed ℕ
fed = record started { phase = Phase.stopped; handed = (2, 8) ∷ []; dropped = 1 ∷ [] }

abbrev events : List (Event ℕ)
events =
    Event.arrives 1 (failed (message "bad body"))
    ∷ Event.arrives 2 (returned 4)
    ∷ Event.taken
    ∷ Event.cancelled
    ∷ []

abbrev dropped_one : Feed ℕ
dropped_one = record started { dropped = 1 ∷ [] }

abbrev handed_one : Feed ℕ
handed_one = record dropped_one { handed = (2, 8) ∷ [] }

run : Run twice started events fed
run = Run.then _ _ _ _ _ (Step.drop started 1 (message "bad body") refl) (
    Run.then _ _ _ _ _ (Step.hold dropped_one 2 4 refl) (
      Run.then _ _ _ _ _ (Step.hand (record dropped_one { phase = Phase.holding 2 8 }) 2 8 refl)
        (Run.then _ _ _ _ _ (Step.stop handed_one refl) (Run.rest fed))))

Run-conserves_example : count 2 (arrived events) ≡ accounted 2 fed
Run-conserves_example = Run-conserves twice 2 run

Run-hands_over_in_order_example :
    (left : List (ℕ × ℕ)) × (decoded twice events ≡ fed.handed ++ left) × (length left ≤ 1)
Run-hands_over_in_order_example = Run-hands_over_in_order twice run

Run-ends_example : (length events ≤ 2 * length (arrived events) + 1) × CanEnd twice fed
Run-ends_example = Run-ends twice run

abbrev github_client : Client
github_client = record { ok = true; slug = "synthy" }

abbrev empty_event : RepositoryEventMessage
empty_event = record {
  provider = Provider.github;
  event_type = EventType.full_index;
  repository = none;
  installation_id = 77;
  organization_id = "o";
  commits = [];
  head_commit = none;
}

missing_repository_rejected_example :
    ((handle_delivery quiet github_client wired
        (record { tag = 5; message = decode_event empty_event })
        indexed).0
      ≡ ok tt)
    × ((handle_delivery quiet github_client wired
          (record { tag = 5; message = decode_event empty_event })
          indexed).1.settled
        ≡ indexed.settled ++ nacked 5 false ∷ [])
    × ((handle_delivery quiet github_client wired
          (record { tag = 5; message = decode_event empty_event })
          indexed).1.db
        ≡ indexed.db)
missing_repository_rejected_example =
    missing_repository_rejected quiet github_client wired 5 empty_event indexed (λ t. refl) refl
