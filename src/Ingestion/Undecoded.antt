-- ===== src/Ingestion/Undecoded.antt =====
-- Messages without a repository: the subscriber drops the error of FromProto, and passes on the empty
-- message.
use synthy.Prelude.{ℕ, ◌≡◌, refl, false, none, ◌∷◌, [], ◌++◌, String_discrete}
use synthy.Exec.{ok, pure, raise, attempt, ◌>>=◌}
use synthy.World.{World, Env, nacked}
use synthy.Vectors.{Wiring}
use synthy.Changes.{from_proto}
use synthy.Changes.Proto.{RepositoryEventMessage}
use synthy.Github.Client.{Client}
use synthy.Consumers.{fail}
use synthy.Consumers.Settled.{fail_lem}
use synthy.Subscribers.{decode_event, zero_message}
use synthy.Ingestion.{handle_delivery, handle, token_for, organization_for}

decode_event-missing :
    (c : RepositoryEventMessage) → c.repository ≡ none → decode_event c ≡ zero_message
unfolding decode_event from_proto
decode_event-missing c missing = rw missing refl

zero_message_rejected :
    (env : Env) (client : Client) (wiring : Wiring) (tag : ℕ) (w : World)
    → handle_delivery env client wiring (record { tag = tag; message = zero_message }) w
      ≡ fail env tag w
unfolding handle_delivery handle token_for organization_for attempt pure raise ◌>>=◌ String_discrete
zero_message_rejected env client wiring tag w = refl

-- If acknowledgements and rejections get through, an event without a repository is rejected without
-- being queued again, and the database stays as it is.
pub missing_repository_rejected :
    (env : Env) (client : Client) (wiring : Wiring) (tag : ℕ) (c : RepositoryEventMessage)
    (w : World)
    → ((t : ℕ) → env.delivery_fault t ≡ none)
    → c.repository ≡ none
    → ((handle_delivery env client wiring (record { tag = tag; message = decode_event c }) w).0
        ≡ ok tt)
      × ((handle_delivery env client wiring
            (record { tag = tag; message = decode_event c })
            w).1.settled
          ≡ w.settled ++ nacked tag false ∷ [])
      × ((handle_delivery env client wiring (record { tag = tag; message = decode_event c }) w).1.db
          ≡ w.db)
missing_repository_rejected env client wiring tag c w delivers missing =
    let (answered, settled, kept, _) = fail_lem env delivers tag w in
    rw (decode_event-missing c missing, zero_message_rejected env client wiring tag w)
      (answered, settled, kept)
