-- ===== src/Llm/Ollama.antt =====
-- internal/infra/llm/ollama: the language model and the embeddings of an Ollama server.
use Prim.Native.String.{◌++◌ as append}
use synthy.Prelude.{String, Bool, false, not, nat_eq, List, [], ◌∷◌, if◌then◌else◌}
use synthy.Exec.{Exec, Reply, of_reply, message, raise, lift, wrapping, ◌>>=◌, ◌>>◌}
use synthy.World.{Embedding, InputType}
use synthy.Text.{is_blank}
use synthy.Llm.{
  Provider, Call, HttpResponse, send, checked, empty_input, first_embedding, summary_prompt,
  response_prompt,
}

pub record GenerateRequest : Type 0 where
  pub model : String
  pub prompt : String
  pub stream : Bool

pub record EmbedRequest : Type 0 where
  pub model : String
  pub input : String

-- encoding/json on these, and on generateResponse and embedResponse
pub record Json : Type 0 where
  pub marshal_generate : GenerateRequest → Reply String
  pub decode_generate : String → Reply String
  pub marshal_embed : EmbedRequest → Reply String
  pub decode_embed : String → Reply (List Embedding)

-- LLMClient and EmbeddingClient have the same fields.
pub record OllamaClient : Type 0 where
  pub base_url : String
  pub model : String

module _ (out : Provider) (json : Json) where
  unfoldable pub new_llm_client : OllamaClient
  new_llm_client = record {
    base_url = out.getenv "LLM_CLIENT_BASE_URL";
    model = out.getenv "LLM_CLIENT_MODEL";
  }

  unfoldable pub new_embedding_client : OllamaClient
  new_embedding_client = record {
    base_url = out.getenv "EMBEDDING_CLIENT_BASE_URL";
    model = out.getenv "EMBEDDING_CLIENT_MODEL";
  }

  abbrev pub read_response :
      {A : Type 0} → String → (String → Reply A) → HttpResponse → Exec (List Call) A
  read_response what decode resp =
      if not (nat_eq resp.status 200)
      then raise (message (append what " request failed with status"))
      else wrapping (append "decode " (append what " response"))
          (lift (of_reply (decode resp.body)))

  -- What the three operations have in common, with their word for the errors.
  unfoldable pub exchange :
      {A : Type 0} → String → String → Reply String → (String → Reply A) → Exec (List Call) A
  unfolding send
  exchange what url body decode = do
    text ← wrapping (append "marshal " (append what " request")) (lift (of_reply body))
    wrapping (append "create " (append what " request")) (checked (out.request_fault url))
    resp ← wrapping (append what " request") (
        send out
          (record { url = url; headers = ("Content-Type", "application/json") ∷ []; body = text }))
    read_response what decode resp

  unfoldable pub generate_summary : OllamaClient → String → Exec (List Call) String
  unfolding exchange is_blank
  generate_summary c input =
      if is_blank input
      then raise empty_input
      else exchange "generate" (append c.base_url "/api/generate")
          (json.marshal_generate
            (record { model = c.model; prompt = summary_prompt input; stream = false }))
          json.decode_generate

  unfoldable pub generate_response : OllamaClient → String → String → Exec (List Call) String
  unfolding exchange
  generate_response c query context =
      exchange "generate" (append c.base_url "/api/generate")
        (json.marshal_generate
          (record { model = c.model; prompt = response_prompt query context; stream = false }))
        json.decode_generate

  unfoldable pub generate_embeddings :
      OllamaClient → String → InputType → Exec (List Call) Embedding
  unfolding exchange is_blank
  generate_embeddings c input _ = if is_blank input then raise empty_input else do
    embeddings ←
        exchange "embed" (append c.base_url "/api/embed")
          (json.marshal_embed (record { model = c.model; input = input })) json.decode_embed
    first_embedding embeddings
