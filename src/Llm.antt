-- ===== src/Llm.antt =====
-- internal/core/llm/client.go and what its implementations in internal/infra/llm share: the calls that
-- leave the process, each made known by what went before.
pub mod Ollama
pub mod Claude
pub mod Voyage
use Prim.Native.String.{◌++◌ as append}
use synthy.Prelude.{String, ℕ, List, [], ◌∷◌, ◌++◌, Option, none, some}
use synthy.Exec.{Error, message, Exec, Reply, of_reply, raise, pure}
use synthy.World.{Embedding}
use synthy.Retrieval.{ℤ}

-- http.Request, all POST
pub record HttpRequest : Type 0 where
  pub url : String
  pub headers : List (String × String)
  pub body : String

pub record HttpResponse : Type 0 where
  pub status : ℕ
  pub body : String

-- A wait at the rate limiter for so many tokens, a request, and a command with its arguments.
pub data Call : Type 0 where
  waited : ℕ → Call
  posted : HttpRequest → Call
  ran : String → List String → Call

-- What the clients use of other packages. The answers depend on the calls made before.
pub record Provider : Type 0 where
  -- os.Getenv, and strconv.Atoi with its error dropped or not
  pub getenv : String → String
  pub atoi : String → Reply ℤ
  pub atoi_value : String → ℤ
  -- ratelimit.Limiter.Wait and EstimateTokens of commons
  pub wait_fault : List Call → ℕ → Option Error
  pub estimate_tokens : String → ℕ
  -- http.NewRequestWithContext, and http.Client.Do
  pub request_fault : String → Option Error
  pub respond : List Call → HttpRequest → Reply HttpResponse
  -- exec.Cmd.Run: the standard output, or the failure with the standard error
  pub run : List Call → String → List String → Reply String

-- ErrEmptyInput
abbrev pub empty_input : Error
empty_input = message "llm: input is empty"

abbrev pub checked : Option Error → Exec (List Call) (Unit {0})
checked none = pure tt
checked (some e) = raise e

module _ (out : Provider) where
  unfoldable pub wait : ℕ → Exec (List Call) (Unit {0})
  wait n calls = checked (out.wait_fault calls n) (calls ++ waited n ∷ [])

  unfoldable pub send : HttpRequest → Exec (List Call) HttpResponse
  send req calls = (of_reply (out.respond calls req), calls ++ posted req ∷ [])

  unfoldable pub run_command : String → List String → Exec (List Call) String
  run_command bin args calls = (of_reply (out.run calls bin args), calls ++ ran bin args ∷ [])

-- `data[0]`, if there is one
abbrev pub first_embedding : List Embedding → Exec (List Call) Embedding
first_embedding [] = raise (message "no embeddings returned")
first_embedding (e ∷ es) = pure e

unfoldable pub lines : List String → String
lines [] = ""
lines (l ∷ ls) = append l (append "\n" (lines ls))

-- The prompt of GenerateSummary, the same in both clients.
unfoldable pub summary_prompt : String → String
unfolding lines
summary_prompt input =
    append
      (lines (
        "You are analyzing a code chunk." ∷ "" ∷ "Goal:"
        ∷ "Generate a concise, retrieval-optimized summary." ∷ "" ∷ "Instructions:"
        ∷ "- Describe what the code does in terms of behavior and purpose"
        ∷ "- Include specific identifiers when relevant:"
        ∷ "  - table names, struct/class names, key functions, external APIs"
        ∷ "- Mention key operations (e.g., SELECT, INSERT, HTTP call, validation, transformation)"
        ∷ "- Focus on what makes this code unique" ∷ "" ∷ "Strict rules:" ∷ "- Max 60 words"
        ∷ "- Single paragraph" ∷ "- NO generic phrases like:" ∷ "  - \"this function\""
        ∷ "  - \"this code\"" ∷ "  - \"key concepts include\""
        ∷ "- NO fluff, explanations, or repetition"
        ∷ "- Do NOT restate obvious things like \"handles database operations\"" ∷ "" ∷ "Output:"
        ∷ "Return only the summary text." ∷ "" ∷ "Code:" ∷ []))
      input

-- The prompt of GenerateResponse, the same in both clients: the query and the context.
unfoldable pub response_prompt : String → String → String
unfolding lines
response_prompt query context =
    append
      (lines (
        "You are a coding assistant answering questions about a codebase." ∷ "" ∷ "Context:"
        ∷ context ∷ "" ∷ "Question:" ∷ query ∷ "" ∷ "Instructions:"
        ∷ "- Answer based strictly on the provided context"
        ∷ "- Reference specific functions, types, or files when relevant" ∷ []))
      "- Be concise and precise"
