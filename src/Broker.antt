-- ===== src/Broker.antt =====
-- What internal/infra/rabbimq declares at the broker when the program starts, and when a subscriber
-- starts to consume. All exchanges and queues are durable, and no other flag is set. RabbitMQ gives a
-- declared queue the name that was asked for.
pub mod Declares
pub mod Routed
use Prim.Native.String.{◌++◌ as append}
use synthy.Prelude.{String, ℕ, List, [], ◌∷◌, ◌++◌, Option, none, some}
use synthy.Exec.{Error, Exec, pure, raise, wrapping, ok, ◌>>=◌, ◌>>◌}

-- x-dead-letter-exchange and x-dead-letter-routing-key
pub record DeadLetter : Type 0 where
  pub exchange : String
  pub routing_key : String

-- A call of amqp.Channel that the broker accepted: `ExchangeDeclare` with the kind, `QueueDeclare`,
-- `QueueBind` with the queue, the key and the exchange, `Qos` with the count, and `Consume`.
pub data Declaration : Type 0 where
  exchange : String → String → Declaration
  queue : String → Option DeadLetter → Declaration
  binding : String → String → String → Declaration
  prefetch : ℕ → Declaration
  consumer : String → Declaration

-- Which calls fail, by what was accepted before.
pub record Connection : Type 0 where
  pub open_fault : Option Error
  pub fault : List Declaration → Declaration → Option Error

abbrev pub accepted : Option Error → Declaration → Exec (List Declaration) (Unit {0})
accepted none d = λ done. (ok tt, done ++ d ∷ [])
accepted (some e) d = raise e

abbrev pub opened : Option Error → Exec (List Declaration) (Unit {0})
opened none = pure tt
opened (some e) = raise e

abbrev pub embedding_queue_name : String
embedding_queue_name = "embedding_queue"

abbrev pub summary_queue_name : String
summary_queue_name = "summary_queue"

abbrev pub embedding_exchange : String
embedding_exchange = "embedding_exchange"

abbrev pub embedding_dlx_exchange : String
embedding_dlx_exchange = "embedding_dlx_exchange"

abbrev pub repository_event_exchange : String
repository_event_exchange = "repository_event_exchange"

abbrev pub repository_event_dlx_exchange : String
repository_event_dlx_exchange = "repository_event_dlx_exchange"

abbrev pub events_queue_name : String
events_queue_name = "repository_event_queue"

module _ (conn : Connection) where
  unfoldable pub declare : Declaration → Exec (List Declaration) (Unit {0})
  declare d done = accepted (conn.fault done d) d done

  unfoldable pub open_channel : Exec (List Declaration) (Unit {0})
  open_channel = wrapping "failed to open channel" (opened conn.open_fault)

  unfoldable pub declare_queue_with_dlx : String → String → Exec (List Declaration) (Unit {0})
  unfolding declare
  declare_queue_with_dlx name dlx = do
    wrapping "declare error queue" (declare (queue (append name "_error") none))
    wrapping "bind error queue"
        (declare (binding (append name "_error") (append name "_failed") dlx))
    wrapping "declare queue" (
        declare
          (queue name (some (record { exchange = dlx; routing_key = append name "_failed" }))))
    wrapping "bind queue to exchange" (declare (binding name "" embedding_exchange))

  unfoldable pub new_embedding_publisher : Exec (List Declaration) (Unit {0})
  unfolding open_channel declare_queue_with_dlx
  new_embedding_publisher = do
    open_channel
    wrapping "failed to declare main exchange" (declare (exchange embedding_exchange "fanout"))
    wrapping "failed to declare DLX exchange" (declare (exchange embedding_dlx_exchange "direct"))
    wrapping (append "failed to set up " embedding_queue_name)
        (declare_queue_with_dlx embedding_queue_name embedding_dlx_exchange)
    wrapping (append "failed to set up " summary_queue_name)
        (declare_queue_with_dlx summary_queue_name embedding_dlx_exchange)

  unfoldable pub new_repository_event_publisher : Exec (List Declaration) (Unit {0})
  unfolding open_channel declare
  new_repository_event_publisher = do
    open_channel
    wrapping "failed to declare main exchange"
        (declare (exchange repository_event_exchange "direct"))
    wrapping "failed to declare DLX exchange"
        (declare (exchange repository_event_dlx_exchange "direct"))
    wrapping "failed to declare queue" (
        declare (
          queue events_queue_name
            (some (record { exchange = repository_event_dlx_exchange; routing_key = "failed" }))))
    wrapping "failed to bind queue to main exchange"
        (declare (binding events_queue_name "" repository_event_exchange))

  -- what the constructors of the three subscribers do
  unfoldable pub new_subscriber : Exec (List Declaration) (Unit {0})
  unfolding open_channel declare
  new_subscriber = do open_channel; wrapping "failed to set QoS" (declare (prefetch 1))

  unfoldable pub new_ingestion_subscriber : Exec (List Declaration) (Unit {0})
  unfolding new_subscriber
  new_ingestion_subscriber = new_subscriber

  unfoldable pub new_embedding_subscriber : Exec (List Declaration) (Unit {0})
  unfolding new_subscriber
  new_embedding_subscriber = new_subscriber

  unfoldable pub new_summary_subscriber : Exec (List Declaration) (Unit {0})
  unfolding new_subscriber
  new_summary_subscriber = new_subscriber

  -- The synchronous part of Subscribe; the goroutine is in Subscribers.
  unfoldable pub consume : String → Exec (List Declaration) (Unit {0})
  unfolding declare
  consume name = wrapping "failed to start consuming" (declare (consumer name))

  unfoldable pub subscribe_events : Exec (List Declaration) (Unit {0})
  unfolding consume
  subscribe_events = consume events_queue_name

  unfoldable pub subscribe_embeddings : Exec (List Declaration) (Unit {0})
  unfolding consume
  subscribe_embeddings = consume embedding_queue_name

  unfoldable pub subscribe_summaries : Exec (List Declaration) (Unit {0})
  unfolding consume
  subscribe_summaries = consume summary_queue_name
