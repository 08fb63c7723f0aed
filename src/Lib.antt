-- ===== src/Lib.antt =====
-- Synthy indexes Go repositories for retrieval. A push arrives as a message on a queue; the
-- ingestion consumer clones the repository and runs the analysis pipeline, which stores files,
-- symbols, call and import edges and code chunks in PostgreSQL and queues each chunk; two further
-- consumers give each chunk an embedding, kept in a vector index (Pinecone), and a summary.
--
-- Which file models which part, with the names of the source in snake case:
--   Model      the records of internal/core/*/model.go
--   Exec       Go functions that mutate state and return a value and an error; a nil dereference is
--              `panic`, and what was done before an error stays done
--   Db         the tables and the statements of internal/infra/psql (the schema is the one of its
--              migrations): inserts that check the keys, deletes that cascade; Db/Rows has the
--              queries and the updates
--   World      the state, in World/Outside with the answers of the world outside: the database, the
--              requests that the vector index accepted, the chunks published, the settled
--              deliveries, the temporary clones, the repository events queued, the clients of
--              installations. The batch inserts of internal/infra/psql, UpsertEmbeddings,
--              QuerySimilarVectors and DeleteVectors of internal/infra/pinecone/repository.go,
--              PublishEmbedding of internal/infra/rabbimq/embeddingPublisher.go
--   Paths      the functions of path/filepath in use, and RelPath
--   Changes    internal/core/repository/ingestionMapper.go; Changes/Proto has the messages
--   Packages   what go/packages, go/ast and go/types give the code
--   Files, Symbols, Calls, Imports, Chunker
--              internal/core/file/service.go, internal/core/symbol/service.go,
--              internal/core/calls/service.go, internal/core/imports/service.go,
--              internal/core/chunker/service.go
--   Vectors    internal/usecase/analysis/vectors.go
--   Pipeline   internal/usecase/analysis/analysisPipeline.go: process_repository, process_full,
--              process_incremental and what they call
--   Consumers  the handling of one delivery in internal/interface/mq/embeddingEventController.go
--              and internal/interface/mq/summaryEventController.go, and fail of
--              internal/interface/mq/nack.go
--   Text       the functions of strings, unicode and strconv in use
--   Github     Github/Client is internal/infra/github/client.go, Github/Config its NewClient and
--              internal/infra/github/config.go, Github/Service is
--              internal/usecase/github/service.go, Github/Api is internal/interface/api
--   Cloner     internal/infra/git/cloner.go
--   Ingestion  the handling of one delivery in internal/interface/mq/repositoryEventController.go,
--              which takes the token from Github/Client, the clone from Cloner, the index run from
--              Pipeline, and settles the delivery as Consumers does
--   Subscribers
--              the goroutine of Subscribe in internal/infra/rabbimq/ingestionSubscriber.go,
--              embeddingSubscriber.go and summarySubscriber.go, as a step relation
--   Broker     what the publishers and subscribers of internal/infra/rabbimq declare at RabbitMQ
--   Retrieval  internal/usecase/retrieval/retrievalPipeline.go; Retrieval/Rpc is
--              internal/interface/rpc/synthyService.go
--   Llm        internal/infra/llm: Llm/Ollama, Llm/Claude and Llm/Voyage, and in Llm the calls that
--              leave the process and the prompts
--   Startup    internal/infra/psql/newConn.go and internal/infra/pinecone/newConnection.go
--   System     what cmd/synthy/main.go starts, as a reaction to one event after the other
--   Tests      the theorems at concrete inputs
-- The files below these hold the proofs: Exec/Rules, World/Keeps, World/Safe, World/Leaves,
-- World/Steady and World/Growth the rules for invariants of effectful code, Pipeline/Growth and
-- Pipeline/Run their use along an index run, the others a component's theorems.
--
-- The outside world is a parameter, the record Env: at each tick it says whether a call of the
-- database, the vector index, the publisher or the queue fails, and what the clock, the random
-- source, the file system, the Go parser and loader, the language models, git and the GitHub API
-- answer. Each such call takes one tick. Unless a theorem says otherwise it holds for every such
-- environment, so for every sequence of failures. A statement or a commit that fails has changed
-- nothing, and a rollback before the commit restores the database of the transaction's beginning.
--
-- Bounds: the ids of vectors go out 1000 at a time, and the loop over them has their number as
-- fuel, which is enough as each round takes at least one. The loop over the pages of the GitHub API
-- has the bound of the code, 20 pages, as fuel. All other loops are by recursion on lists and texts.
--
-- Simplified: a Go map is walked in the order of first insertion. A time, an int64 id and a
-- float32, by its bits, are natural numbers. The text of an error keeps its fixed words and leaves
-- out the values printed in it. Logs, column widths, users and members are left out. A file's
-- syntax tree is the list of the nodes that ast.Inspect visits, in that order.
-- A text is a list of characters; where the code counts bytes, those of UTF-8 are counted.
--
-- Llm and Startup have an outside world of their own, whose answers depend on the calls made before;
-- for the consumers and for retrieval, the answers of the models are those of Env.
--
-- Not modelled: the wiring of cmd/synthy, the timeouts of the HTTP client, the seed data of the tests
-- and the closing of channels, which only do I/O. JSON, the middleware and the binding of request
-- bodies belong to other packages: what they answer comes with a request. The mutex of the GitHub
-- client makes each use of its map one step. The consumers take one delivery at a time, and System
-- handles the events of all of them one after the other; Subscribers is the only part that models
-- what happens beside.
pub mod Prelude
pub mod Model
pub mod Exec
pub mod Db
pub mod World
pub mod Text
pub mod Paths
pub mod Changes
pub mod Packages
pub mod Files
pub mod Symbols
pub mod Calls
pub mod Imports
pub mod Chunker
pub mod Vectors
pub mod Pipeline
pub mod Consumers
pub mod Github
pub mod Cloner
pub mod Ingestion
pub mod Subscribers
pub mod Broker
pub mod Retrieval
pub mod Llm
pub mod Startup
pub mod System
pub mod Tests
