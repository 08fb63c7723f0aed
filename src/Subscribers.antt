-- ===== src/Subscribers.antt =====
-- The goroutine of Subscribe in internal/infra/rabbimq/ingestionSubscriber.go, embeddingSubscriber.go
-- and summarySubscriber.go, which are the same up to their messages, as a relation between what it has
-- done before and after an event. The two selects leave open which of the ready cases is taken.
pub mod Conserved
pub mod Ended
pub mod Ordered
use synthy.World.{EmbeddingRequest}
use synthy.Prelude.{some, ℕ, ◌≡◌, List, [], ◌∷◌, ◌++◌, String}
use synthy.Exec.{Error, Result, ok, err, panic, Reply, returned, failed}
use synthy.Changes.{IngestionMessage, IngestionEventType, from_proto}
use synthy.Changes.Proto.{RepositoryEventMessage}
use synthy.Model.{RepositoryProvider}

-- Where the goroutine is: at the first select, at the second with a message, or returned.
pub data Phase (M : Type 0) : Type 0 where
  waiting stopped : Phase M
  holding : ℕ → M → Phase M

-- What it has done with deliveries, by their tags: handed over, `Nack(false, false)` and
-- `Nack(false, true)`.
pub record Feed (M : Type 0) : Type 0 where
  pub phase : Phase M
  pub handed : List (ℕ × M)
  pub dropped : List ℕ
  pub requeued : List ℕ

-- The context is cancelled, the channel of deliveries is closed, a delivery arrives with what
-- unmarshalling it yields, or the consumer takes a message.
pub data Event (D : Type 0) : Type 0 where
  cancelled closed taken : Event D
  arrives : ℕ → Reply D → Event D

abbrev pub started : {M : Type 0} → Feed M
started = record { phase = waiting; handed = []; dropped = []; requeued = [] }

module _ {D M : Type 0} (decode : D → M) where
  pub data Step : Feed M → Event D → Feed M → Type 0 where
    stop : (f : Feed M) → f.phase ≡ waiting → Step f cancelled (record f { phase = stopped })
    close : (f : Feed M) → f.phase ≡ waiting → Step f closed (record f { phase = stopped })
    drop :
        (f : Feed M) (t : ℕ) (e : Error)
        → f.phase ≡ waiting
        → Step f (arrives t (failed e)) (record f { dropped = f.dropped ++ t ∷ [] })
    hold :
        (f : Feed M) (t : ℕ) (d : D)
        → f.phase ≡ waiting
        → Step f (arrives t (returned d)) (record f { phase = holding t (decode d) })
    hand :
        (f : Feed M) (t : ℕ) (m : M)
        → f.phase ≡ holding t m
        → Step f taken (record f { phase = waiting; handed = f.handed ++ (t, m) ∷ [] })
    requeue :
        (f : Feed M) (t : ℕ) (m : M)
        → f.phase ≡ holding t m
        → Step f cancelled (record f { phase = stopped; requeued = f.requeued ++ t ∷ [] })

  pub data Run : Feed M → List (Event D) → Feed M → Type 0 where
    rest : (f : Feed M) → Run f [] f
    then :
        (f g h : Feed M) (s : Event D) (events : List (Event D))
        → Step f s g
        → Run g events h
        → Run f (s ∷ events) h

-- `im := new(IngestionMessage); _ = im.FromProto(&msg)`: an error leaves the zero message.
abbrev pub zero_message : IngestionMessage
zero_message = record {
  provider = RepositoryProvider.unset;
  event_type = IngestionEventType.unset;
  repository_id = 0;
  repo_full_name = "";
  default_branch = "";
  clone_url = "";
  installation_id = 0;
  organization_id = "";
  changed_paths = [];
  removed_paths = [];
}

abbrev or_zero : Result IngestionMessage → IngestionMessage
or_zero (ok m) = m
or_zero (err e) = zero_message
or_zero panic = zero_message

unfoldable pub decode_event : RepositoryEventMessage → IngestionMessage
unfolding from_proto
decode_event c = or_zero (from_proto (some c))

-- contracts.EmbeddingEventMessage, and EmbeddingProcessMessage of
-- internal/core/embedding/embeddingMapper.go
pub record EmbeddingEventMessage : Type 0 where
  pub chunk_id : String
  pub repository_id : String

pub record EmbeddingProcessMessage : Type 0 where
  pub chunk_id : String
  pub repository_id : String

unfoldable pub decode_chunk_event : EmbeddingEventMessage → EmbeddingProcessMessage
decode_chunk_event c = record { chunk_id = c.chunk_id; repository_id = c.repository_id }

unfoldable pub encode_chunk_event : EmbeddingRequest → EmbeddingEventMessage
encode_chunk_event r = record { chunk_id = r.chunk_id; repository_id = r.repository_id }

-- The goroutines of the three subscribers.
abbrev pub IngestionRun :
    Feed IngestionMessage → List (Event RepositoryEventMessage) → Feed IngestionMessage → Type 0
IngestionRun = Run decode_event

abbrev pub EmbeddingRun :
    Feed EmbeddingProcessMessage
    → List (Event EmbeddingEventMessage)
    → Feed EmbeddingProcessMessage
    → Type 0
EmbeddingRun = Run decode_chunk_event

abbrev pub SummaryRun :
    Feed EmbeddingProcessMessage
    → List (Event EmbeddingEventMessage)
    → Feed EmbeddingProcessMessage
    → Type 0
SummaryRun = Run decode_chunk_event
