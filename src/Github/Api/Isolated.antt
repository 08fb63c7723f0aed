-- ===== src/Github/Api/Isolated.antt =====
-- Requests of one organization and the connection and the messages of another.
use synthy.Prelude.{String, ◌≡◌, refl, false, ◌⊎◌, ◌==◌}
use synthy.Exec.{returned}
use synthy.World.{World, Env}
use synthy.Github.Client.{Client}
use synthy.Github.Service.Connection.{seen}
use synthy.Github.Api.{Caller, Request, serve}
use synthy.Github.Api.Steps.{serve-holds}
use synthy.Github.Service.Isolated.{Isolated, same_kept, Isolated-Allows, messages_for}

-- Whatever request a caller makes, and whether it succeeds or fails, an organization for which the
-- caller is neither a member nor a manager sees the connection that it saw before, and has the same
-- messages on the queue.
pub serve-Isolated :
    (p : String) (env : Env) (client : Client) (caller : Caller) (request : Request) (w : World)
    → ((o : String)
        → (caller.member ≡ returned o) ⊎ (caller.manager ≡ returned o)
        → (p == o) ≡ false)
    → (seen p (serve env client caller request w).1.db ≡ seen p w.db)
      × (messages_for p (serve env client caller request w).1.queued ≡ messages_for p w.queued)
serve-Isolated p env client caller request w other =
    serve-holds (Isolated p (seen p w.db) (messages_for p w.queued)) (same_kept p _ _) env client
      caller w (refl, refl) (λ o named. Isolated-Allows p _ _ env client o (other o named)) request
