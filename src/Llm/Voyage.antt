-- ===== src/Llm/Voyage.antt =====
-- internal/infra/llm/voyage/embeddingClient.go: embeddings by Voyage AI, behind a rate limiter.
pub mod Metered
use Prim.Native.String.{◌++◌ as append}
use synthy.Prelude.{String, ℕ, not, nat_eq, ltb, List, [], ◌∷◌, ◌==◌, if◌then◌else◌}
use synthy.Exec.{
  Exec, Reply, returned, failed, of_reply, message, raise, lift, wrapping, ◌>>=◌, ◌>>◌,
}
use synthy.World.{Embedding, InputType, document_input, query_input}
use synthy.Retrieval.{ℤ, pos, negsuc}
use synthy.Text.{is_blank}
use synthy.Llm.{
  Provider, Call, HttpRequest, HttpResponse, wait, send, checked, empty_input, first_embedding,
}

pub record EmbeddingClient : Type 0 where
  pub base_url : String
  pub api_key : String
  pub model : String
  pub output_dim : ℤ

pub record EmbedRequest : Type 0 where
  pub model : String
  pub input : List String
  pub input_type : String
  pub output_dimension : ℤ

-- encoding/json on these, and on embedResponse
pub record Json : Type 0 where
  pub marshal : EmbedRequest → Reply String
  pub decode : String → Reply (List Embedding)

-- ratelimit.Config
pub record RateLimits : Type 0 where
  pub requests_per_minute : ℕ
  pub tokens_per_minute : ℕ

abbrev pub text_of_type : InputType → String
text_of_type document_input = "document"
text_of_type query_input = "query"

abbrev pub or_default : String → String → String
or_default default s = if s == "" then default else s

abbrev pub positive_or : ℕ → Reply ℤ → ℕ
positive_or default (returned (pos v)) = if ltb 0 v then v else default
positive_or default (returned (negsuc v)) = default
positive_or default (failed e) = default

module _ (out : Provider) (json : Json) where
  unfoldable pub env_int : String → ℕ → ℕ
  env_int key default = positive_or default (out.atoi (out.getenv key))

  unfoldable pub new_rate_limit_config : RateLimits
  unfolding env_int
  new_rate_limit_config = record {
    requests_per_minute = env_int "VOYAGE_RPM" 2000;
    tokens_per_minute = env_int "VOYAGE_TPM" 3000000;
  }

  unfoldable pub new_embedding_client : EmbeddingClient
  new_embedding_client = record {
    base_url = or_default "https://api.voyageai.com/v1" (out.getenv "VOYAGE_BASE_URL");
    api_key = out.getenv "VOYAGE_API_KEY";
    model = or_default "voyage-code-3" (out.getenv "VOYAGE_MODEL");
    output_dim = out.atoi_value (out.getenv "VOYAGE_OUTPUT_DIMENSION");
  }

  abbrev pub embed_request : EmbeddingClient → String → InputType → EmbedRequest
  embed_request c input kind = record {
    model = c.model;
    input = input ∷ [];
    input_type = text_of_type kind;
    output_dimension = c.output_dim;
  }

  abbrev pub http_request : EmbeddingClient → String → HttpRequest
  http_request c body = record {
    url = append c.base_url "/embeddings";
    headers =
        ("Content-Type", "application/json") ∷ ("Authorization", append "Bearer " c.api_key) ∷ [];
    body = body;
  }

  abbrev pub read_response : HttpResponse → Exec (List Call) Embedding
  read_response resp =
      if not (nat_eq resp.status 200)
      then raise (message "voyage embed request failed with status")
      else lift (of_reply (json.decode resp.body)) >>= first_embedding

  unfoldable pub generate_embeddings :
      EmbeddingClient → String → InputType → Exec (List Call) Embedding
  unfolding wait send is_blank
  generate_embeddings c input kind = if is_blank input then raise empty_input else do
    wrapping "voyage rate limit" (wait out (out.estimate_tokens input))
    body ← lift (of_reply (json.marshal (embed_request c input kind)))
    checked (out.request_fault (append c.base_url "/embeddings"))
    resp ← send out (http_request c body)
    read_response resp
