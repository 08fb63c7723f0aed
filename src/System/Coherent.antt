-- ===== src/System/Coherent.antt =====
-- The chunks' symbols, whatever the program is asked to do.
pub mod Consumed
pub mod Served
use synthy.Db.{Db}
use Consumed.{handle_embedding-Steady, handle_summary-Steady}
use Served.{handle_delivery-Steady, serve-Steady, serve_retrieve-Steady}
use synthy.Prelude.{◌≡◌, List, [], ◌∷◌, All, All-members}
use synthy.Db.Coherent.{IsCoherent, Owns}
use synthy.World.{World, Env}
use synthy.Vectors.{Wiring}
use synthy.Github.Client.{Client}
use synthy.System.{
  Event, repository_event, embedding_event, summary_event, http_request, rpc_request, react,
  react_all,
}

-- Each chunk's symbol is stored, in the chunk's file and repository.
abbrev pub AreOwned : Db → Type 0
AreOwned db = All (λ c. Owns c.symbol_id c.file_id c.repository_id db.symbols) db.chunks

module _ (env : Env) (client : Client) (wiring : Wiring) where
  react-IsCoherent :
      (e : Event) (w : World) → IsCoherent w.db → IsCoherent (react env client wiring e w).db
  unfolding react
  react-IsCoherent (repository_event d) w i = (handle_delivery-Steady env client wiring d).at w i
  react-IsCoherent (embedding_event d) w i = (handle_embedding-Steady env d).at w i
  react-IsCoherent (summary_event d) w i = (handle_summary-Steady env d).at w i
  react-IsCoherent (http_request caller request) w i = serve-Steady env client caller request w i
  react-IsCoherent (rpc_request req) w i = serve_retrieve-Steady env req w i

  pub reacted :
      (events : List Event) (w : World)
      → IsCoherent w.db
      → IsCoherent (react_all env client wiring events w).db
  unfolding react_all
  reacted [] w i = i
  reacted (e ∷ events) w i = reacted events _ (react-IsCoherent e w i)

  -- Whatever events reach the program one after the other, and whatever fails meanwhile: if there
  -- were no chunks at first, then each chunk in the database points at a symbol that is stored, and
  -- every symbol with this id lies in the chunk's own file and repository.
  pub react_all-AreOwned :
      (events : List Event) (w : World)
      → w.db.chunks ≡ []
      → AreOwned (react_all env client wiring events w).db
  react_all-AreOwned events w none_yet =
      All-members _ _ (reacted events w (λ c m. absurd (rw none_yet at m)))
