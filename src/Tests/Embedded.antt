-- ===== src/Tests/Embedded.antt =====
-- Embeddings by Voyage AI.
use synthy.Prelude.{[], ◌∷◌, none}
use synthy.Exec.{returned}
use synthy.World.{document_input}
use synthy.Retrieval.{pos}
use synthy.Llm.{Provider}
use synthy.Llm.Voyage.{EmbeddingClient, Json, generate_embeddings}
use synthy.Llm.Voyage.Metered.{Metered, generate_embeddings-Metered}

abbrev provider : Provider
provider = record {
  getenv = λ key. "";
  atoi = λ s. returned (pos 0);
  atoi_value = λ s. pos 0;
  wait_fault = λ calls n. none;
  estimate_tokens = λ s. 3;
  request_fault = λ url. none;
  respond = λ calls req. returned (record { status = 200; body = "[[1]]" });
  run = λ calls bin args. returned "";
}

abbrev json : Json
json = record { marshal = λ r. returned "{}"; decode = λ s. returned ((1 ∷ []) ∷ []) }

abbrev voyage : EmbeddingClient
voyage = record {
  base_url = "https://api.voyageai.com/v1";
  api_key = "k";
  model = "voyage-code-3";
  output_dim = pos 1024;
}

generate_embeddings-Metered_example :
    Metered provider json voyage "func Keep() {}" document_input []
      (generate_embeddings provider json voyage "func Keep() {}" document_input [])
generate_embeddings-Metered_example =
    generate_embeddings-Metered provider json voyage "func Keep() {}" document_input []
