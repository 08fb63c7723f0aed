-- ===== src/System.antt =====
-- What cmd/synthy/main.go starts: the three consumers, the HTTP interface and the gRPC service. What
-- reaches them is handled here one event after the other.
pub mod Coherent
pub mod Spared
use synthy.Prelude.{List, [], ◌∷◌}
use synthy.World.{World, Env}
use synthy.Vectors.{Wiring}
use synthy.Consumers.{ChunkDelivery, handle_embedding, handle_summary}
use synthy.Github.Client.{Client}
use synthy.Github.Api.{Caller, Request, serve}
use synthy.Ingestion.{IngestionDelivery, handle_delivery}
use synthy.Retrieval.Rpc.{RetrieveRequest, serve_retrieve}

pub data Event : Type 0 where
  repository_event : IngestionDelivery → Event
  embedding_event summary_event : ChunkDelivery → Event
  http_request : Caller → Request → Event
  rpc_request : RetrieveRequest → Event

module _ (env : Env) (client : Client) (wiring : Wiring) where
  unfoldable pub react : Event → World → World
  react (repository_event d) w = (handle_delivery env client wiring d w).1
  react (embedding_event d) w = (handle_embedding env d w).1
  react (summary_event d) w = (handle_summary env d w).1
  react (http_request caller request) w = (serve env client caller request w).1
  react (rpc_request req) w = (serve_retrieve env req w).1

  unfoldable pub react_all : List Event → World → World
  unfolding react
  react_all [] w = w
  react_all (e ∷ events) w = react_all events (react e w)
