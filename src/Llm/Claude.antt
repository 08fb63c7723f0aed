-- ===== src/Llm/Claude.antt =====
-- internal/infra/llm/claude/llmClient.go: the command line of Claude Code.
use synthy.Prelude.{String, Bool, List, ◌∷◌, ◌==◌, if◌then◌else◌, [], ◌++◌}
use synthy.Exec.{Exec, Reply, of_reply, message, pure, raise, lift, wrapping, ◌>>=◌}
use synthy.Llm.{Provider, Call, run_command, summary_prompt, response_prompt}

pub record ClaudeCodeClient : Type 0 where
  pub binary_path : String
  pub model : String

-- cliResult; the session and the cost are not read.
pub record CliResult : Type 0 where
  pub result : String
  pub is_error : Bool

abbrev pub or_claude : String → String
or_claude path = if path == "" then "claude" else path

abbrev pub arguments : String → String → List String
arguments model prompt =
    ("-p" ∷ prompt ∷ "--output-format" ∷ "json" ∷ "--max-turns" ∷ "1" ∷ [])
    ++ (if model == "" then [] else "--model" ∷ model ∷ [])

abbrev pub result_of : CliResult → Exec (List Call) String
result_of res = if res.is_error then raise (message "claude returned an error") else pure res.result

-- `decode` is json.Unmarshal to a cliResult.
module _ (out : Provider) (decode : String → Reply CliResult) where
  unfoldable pub new_claude_code_client : ClaudeCodeClient
  new_claude_code_client = record {
    binary_path = out.getenv "CLAUDE_BINARY_PATH";
    model = out.getenv "CLAUDE_MODEL";
  }

  unfoldable pub invoke : ClaudeCodeClient → String → Exec (List Call) String
  unfolding run_command
  invoke c prompt = do
    text ←
        wrapping "claude CLI invocation failed"
          (run_command out (or_claude c.binary_path) (arguments c.model prompt))
    res ← wrapping "failed to parse claude CLI output" (lift (of_reply (decode text)))
    result_of res

  unfoldable pub generate_summary : ClaudeCodeClient → String → Exec (List Call) String
  unfolding invoke
  generate_summary c input = invoke c (summary_prompt input)

  unfoldable pub generate_response : ClaudeCodeClient → String → String → Exec (List Call) String
  unfolding invoke
  generate_response c query context = invoke c (response_prompt query context)
