-- ===== src/Ingestion/Settled.antt =====
-- What becomes of a delivery of a repository event.
use synthy.Prelude.{◌≡◌, List}
use synthy.World.{World, Env, Settlement}
use synthy.World.Safe.{Safe}
use synthy.Vectors.{Wiring}
use synthy.Github.Client.{Client}

module _ (env : Env) (client : Client) (wiring : Wiring) (settled : List Settlement) where
  abbrev Untouched : World → Type 0
  Untouched w = w.settled ≡ settled
