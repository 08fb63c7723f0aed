-- ===== src/System/Spared.antt =====
-- A push after any other events, and a chunk whose file it does not touch.
use synthy.Prelude.{◌≡◌, ap, List, [], Member}
use synthy.Model.{CodeChunk}
use synthy.Db.{Db}
use synthy.Db.Coherent.{IsCoherent}
use synthy.World.{World, Env}
use synthy.Vectors.{Wiring}
use synthy.Changes.{IngestionEventType}
use synthy.Github.Client.{Client}
use synthy.Pipeline.Untouched.{Stored, Owned}
use synthy.Ingestion.{IngestionDelivery, is_incremental}
use synthy.Ingestion.Spared.{PassesBy, handle_delivery-Spared}
use synthy.System.{Event, repository_event, react, react_all}
use synthy.System.Coherent.{reacted}

-- The symbol of a chunk of a coherent database lies in the chunk's file.
IsCoherent-Owned : (c : CodeChunk) (db : Db) → IsCoherent db → Stored c db → Owned c db
IsCoherent-Owned c db i m = record { stored = m; symbol_in_file = λ s n e. ((i c m).same s n e).0 }

module _ (env : Env) (client : Client) (wiring : Wiring) (events : List Event) (w : World) where
  abbrev pub later : Db
  later = (react_all env client wiring events w).db

  -- Take any events from a state without chunks on, a chunk that is stored after them, and then the
  -- event of a push. Then the chunk's row is still there, unchanged, after the push, whatever fails in
  -- it or before, if the push does not touch the chunk's file: the repository of the push, which is
  -- the one with its external id, if there is one, has no file row that is the chunk's file and lies
  -- under a changed or removed Go path of the push; and it has no file row with an absolute path, or
  -- the chunk's file is none of its file rows at all.
  pub push_keeps_chunk :
      (c : CodeChunk) (d : IngestionDelivery)
      → w.db.chunks ≡ []
      → Member c later.chunks
      → d.message.event_type ≡ IngestionEventType.incremental_index
      → PassesBy c d.message later
      → Member c
          (react env client wiring
            (repository_event d)
            (react_all env client wiring events w)).db.chunks
  unfolding react
  push_keeps_chunk c d none_yet stored push passes_by =
      let coherent = reacted env client wiring events w (λ k m. absurd (rw none_yet at m)) in
      handle_delivery-Spared env client wiring c d (ap is_incremental push) _
        (IsCoherent-Owned c later coherent stored, passes_by)
