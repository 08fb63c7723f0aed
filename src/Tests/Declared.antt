-- ===== src/Tests/Declared.antt =====
-- The set-up of the queues of chunks and of the database.
use synthy.Text.{byte_length}
use synthy.Prelude.{◌≡◌, refl, String_discrete, ◌⊎◌, ◌++◌, List, [], none}
use synthy.Exec.{Error, ok, err, panic, ◌>>=◌}
use synthy.Broker.{
  Connection, Declaration, new_embedding_publisher, embedding_queue_name, summary_queue_name,
}
use synthy.Broker.Routed.{InOrder, Parks, new_embedding_publisher-Parks}
use synthy.Startup.{Servers, new_connection}

abbrev broker : Connection
broker = record { open_fault = none; fault = λ done d. none }

new_embedding_publisher-Parks_example :
    (added : List Declaration) × ((new_embedding_publisher broker []).1 ≡ [] ++ added)
    × InOrder [] [] added
    × ((((new_embedding_publisher broker []).0 ≡ ok tt)
          × Parks embedding_queue_name added
          × Parks summary_queue_name added)
        ⊎ ((e : Error) × ((new_embedding_publisher broker []).0 ≡ err e)))
new_embedding_publisher-Parks_example = new_embedding_publisher-Parks broker []

-- The variable POSTGRES_CONNECTION_STRING is not set.
abbrev unset : Servers
unset = record {
  getenv = λ key. "";
  source_fault = none;
  instance_fault = λ dsn. none;
  up_fault = λ dsn. none;
  version_fault = λ dsn. none;
  pool_fault = λ s. none;
  client_fault = λ key. none;
  index_fault = λ host. none;
}

new_connection_panics : new_connection unset [] ≡ (panic, [])
unfolding new_connection byte_length String_discrete ◌>>=◌
new_connection_panics = refl
