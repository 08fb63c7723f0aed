-- ===== src/World/Outside.antt =====
-- What the calls that leave the process are asked and answer, and what is recorded of them: the data of
-- internal/core and of the third-party clients that they hand over.
use synthy.Prelude.{String, ℕ, Bool, List, Option}
use synthy.Exec.{Error, Reply}
use synthy.Db.{Db}
use synthy.Packages.{Package, ParsedFile}
use synthy.Changes.Proto.{RepositoryEventMessage}
use synthy.Model.{ChunkType, Language}

-- embedding.DefaultNamespace
abbrev pub default_namespace : String
default_namespace = "__default__"

-- a []float32, by bit patterns
abbrev pub Embedding : Type 0
Embedding = List ℕ

-- llm.InputType
pub data InputType : Type 0 where
  document_input query_input : InputType

-- the metadata that is stored beside a vector
pub record Metadata : Type 0 where
  pub chunk_id : String
  pub repository_id : String
  pub file_id : String
  pub symbol_id : String
  pub chunk_type : ChunkType
  pub language : Language
  pub start_line : ℕ
  pub end_line : ℕ

-- A call of internal/infra/pinecone/repository.go that the index accepted.
pub data VectorRequest : Type 0 where
  upsert_vector : String → Embedding → Metadata → String → VectorRequest
  delete_vectors : List String → String → VectorRequest

-- internal/core/embedding/embeddingPublisher.go
pub record EmbeddingRequest : Type 0 where
  pub chunk_id : String
  pub repository_id : String

-- What was done with a delivery, by its tag: `Ack(false)`, or `Nack(false, requeue)`.
pub data Settlement : Type 0 where
  acked : ℕ → Settlement
  nacked : ℕ → Bool → Settlement

pub record World : Type 0 where
  pub tick : ℕ
  pub db : Db
  pub requests : List VectorRequest
  pub published : List EmbeddingRequest
  pub settled : List Settlement
  -- the temporary directories of the clones
  pub clones : List String
  -- what internal/infra/rabbimq/repositoryEventPublisher.go published
  pub queued : List RepositoryEventMessage
  -- the keys of `installClients` of internal/infra/github/client.go
  pub clients : List ℕ

-- url.URL: the user information, and the rest
pub record Url : Type 0 where
  pub user : Option (String × String)
  pub rest : String

-- A failure of go-github: the status of the response beside it, its text, and what errors.As finds
-- in it, the status of that response and its message.
pub record ApiFailure : Type 0 where
  pub status : Option ℕ
  pub text : String
  pub error_response : Option (Option ℕ × String)

-- an answer of the GitHub API
pub data ApiReply (A : Type 0) : Type 0 where
  returned_api : A → ApiReply A
  failed_api : ApiFailure → ApiReply A

-- github.Repository of go-github; a pointer field is an `Option`.
pub record ApiRepository : Type 0 where
  pub id : Option ℕ
  pub name : Option String
  pub full_name : Option String
  pub owner : Option (Option String)
  pub description : Option String
  pub is_private : Option Bool
  pub default_branch : Option String
  pub language : Option String
  pub html_url : Option String
  pub clone_url : Option String
  -- the time in RFC 3339, unless it is zero
  pub pushed_at : Option String

-- The answers of the world outside, by the tick of the call.
pub record Env : Type 0 where
  -- time.Now
  pub now : ℕ → ℕ
  -- crypto/rand; its failure
  pub random_id : ℕ → Reply String
  -- the failures of PostgreSQL, Pinecone and RabbitMQ
  pub db_fault : ℕ → Option Error
  pub vector_fault : ℕ → Option Error
  pub publish_fault : ℕ → Option Error
  pub delivery_fault : ℕ → Option Error
  -- the embedding and the language model, and math/rand's id for a vector
  pub generate_embeddings : ℕ → String → InputType → Reply Embedding
  pub generate_summary : ℕ → String → Reply String
  pub random_vector_id : ℕ → String
  -- the ids of the vectors nearest to one, at most so many, in a namespace
  pub similar_vectors : ℕ → Embedding → ℕ → String → Reply (List String)
  -- the installation token of ghinstallation; whether github.NewClient fails
  pub installation_token : ℕ → ℕ → Reply String
  pub new_client : ℕ → ℕ → Option Error
  -- the GitHub API: the login and the type of an installation's account, and pages of the
  -- repositories of an installation and of the branches of a repository, with the next page
  pub api_installation : ℕ → ℕ → ApiReply (Option String × Option String)
  pub api_repositories : ℕ → ℕ → ℕ → ApiReply (List ApiRepository × ℕ)
  pub api_branches : ℕ → ℕ → String → String → ℕ → ApiReply (List (Option String) × ℕ)
  -- id.New of commons; url.QueryEscape
  pub new_id : ℕ → String → Reply String
  pub query_escape : String → String
  -- os.MkdirTemp, os.RemoveAll, url.Parse and String, and the failure of git with what it printed
  pub make_temp : ℕ → Reply String
  pub remove_fault : ℕ → Option Error
  pub parse_url : String → Reply Url
  pub print_url : Url → String
  pub run_git : ℕ → List String → Option (Error × String)
  -- the queue of repository events
  pub event_fault : ℕ → Option Error
  -- os.ReadFile
  pub read_file : ℕ → String → Reply String
  -- go/parser, and packages.Load on a directory
  pub parse_file : ℕ → String → Reply ParsedFile
  pub load_packages : ℕ → String → Reply (List Package)
  -- crypto/sha256, in hexadecimal
  pub sha256hex : String → String
