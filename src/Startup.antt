-- ===== src/Startup.antt =====
-- NewConnection of internal/infra/psql/newConn.go and of internal/infra/pinecone/newConnection.go.
pub mod Migrated
use synthy.Text.{byte_length, byte_slice}
use Prim.Native.String.{◌++◌ as append}
use synthy.Prelude.{
  String, Bool, true, false, leb, List, [], ◌∷◌, ◌++◌, Option, none, some, if◌then◌else◌,
}
use synthy.Exec.{Error, Exec, pure, raise, crash, ◌>>=◌, ◌>>◌}

-- What was asked of the database and of Pinecone, in order.
pub data Request : Type 0 where
  migrated : String → Request
  connected : String → Request
  index_opened : String → String → Request

-- golang-migrate, pgxpool and the client of Pinecone: the failures of iofs.New, of
-- NewWithSourceInstance, of Up with whether it is ErrNoChange, of Version, of pgxpool.New, of
-- NewClient and of Index.
pub record Servers : Type 0 where
  pub getenv : String → String
  pub source_fault : Option Error
  pub instance_fault : String → Option Error
  pub up_fault : String → Option (Error × Bool)
  pub version_fault : String → Option Error
  pub pool_fault : String → Option Error
  pub client_fault : String → Option Error
  pub index_fault : String → Option Error

abbrev pub checked : Option Error → Exec (List Request) (Unit {0})
checked none = pure tt
checked (some e) = raise e

-- `err != nil && !errors.Is(err, migrate.ErrNoChange)`
abbrev pub up_checked : Option (Error × Bool) → Exec (List Request) (Unit {0})
up_checked none = pure tt
up_checked (some (e, true)) = pure tt
up_checked (some (e, false)) = raise e

unfoldable pub note : Request → Exec (List Request) (Unit {0})
note r asked = (pure tt (asked ++ r ∷ []))

-- A slice expression panics if the text is shorter than the prefix.
unfoldable pub to_pgx5_dsn : String → Exec (List Request) String
to_pgx5_dsn connection_string =
    if leb (byte_length "postgres://") (byte_length connection_string)
    then pure (
        append "pgx5://" (
          byte_slice connection_string (byte_length "postgres://") (byte_length connection_string)))
    else crash

module _ (servers : Servers) where
  unfoldable pub run_migrations : String → Exec (List Request) (Unit {0})
  unfolding to_pgx5_dsn note
  run_migrations connection_string = do
    checked servers.source_fault
    dsn ← to_pgx5_dsn connection_string
    checked (servers.instance_fault dsn)
    note (migrated dsn)
    up_checked (servers.up_fault dsn)
    checked (servers.version_fault dsn)

  unfoldable pub new_connection : Exec (List Request) (Unit {0})
  unfolding run_migrations
  new_connection =
      let connection_string = servers.getenv "POSTGRES_CONNECTION_STRING" in
      run_migrations connection_string
      >> checked (servers.pool_fault connection_string)
      >> note (connected connection_string)

  unfoldable pub new_index_connection : Exec (List Request) (Unit {0})
  unfolding note
  new_index_connection = do
    checked (servers.client_fault (servers.getenv "PINECONE_API_KEY"))
    checked (servers.index_fault (servers.getenv "PINECONE_HOST"))
    note (index_opened (servers.getenv "PINECONE_API_KEY") (servers.getenv "PINECONE_HOST"))
