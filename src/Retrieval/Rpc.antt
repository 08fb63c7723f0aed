-- ===== src/Retrieval/Rpc.antt =====
-- internal/interface/rpc/synthyService.go, over the messages of the protos repository's generated code.
use Prim.Native.Nat.{◌%◌}
use synthy.Prelude.{String, ℕ, ◌-◌, List, map, Option, none, some, ltb, ◌==◌, if◌then◌else◌}
use synthy.Exec.{Result, ok, err, panic, Error}
use synthy.Model.{CodeChunk}
use synthy.World.{World, Env}
use synthy.Retrieval.{ℤ, pos, negsuc, RetrievalContext, retrieve, type_text, language_text}

pub record RetrieveRequest : Type 0 where
  pub query : String
  pub top_k : ℤ

pub record RetrievedChunk : Type 0 where
  pub id : String
  pub repository_id : String
  pub file_id : String
  pub start_line : ℤ
  pub end_line : ℤ
  pub type : String
  pub language : String
  pub summary : String

pub record RetrieveResponse : Type 0 where
  pub formatted_context : String
  pub chunks : List RetrievedChunk

pub data RpcReply : Type 0 where
  responded : RetrieveResponse → RpcReply
  invalid_argument : String → RpcReply
  internal : Error → RpcReply
  crashed : RpcReply

-- int32(n) of an int that is not negative
abbrev pub to_int32 : ℕ → ℤ
to_int32 n =
    let low = n % 4294967296 in if ltb low 2147483648 then pos low else negsuc (4294967295 - low)

abbrev or_blank : Option String → String
or_blank none = ""
or_blank (some s) = s

abbrev pub retrieved_chunk : CodeChunk → RetrievedChunk
retrieved_chunk c = record {
  id = c.id;
  repository_id = c.repository_id;
  file_id = c.file_id;
  start_line = to_int32 c.start_line;
  end_line = to_int32 c.end_line;
  type = type_text c.type;
  language = language_text c.language;
  summary = or_blank c.summary;
}

abbrev pub response_of : Result RetrievalContext × World → RpcReply × World
response_of (ok context, w) = (
  responded (record {
    formatted_context = context.formatted;
    chunks = map retrieved_chunk context.chunks;
  }),
  w,
)
response_of (err e, w) = (internal e, w)
response_of (panic, w) = (crashed, w)

unfoldable pub serve_retrieve : Env → RetrieveRequest → World → RpcReply × World
serve_retrieve env req w =
    if req.query == ""
    then (invalid_argument "query is required", w)
    else response_of (retrieve env req.query req.top_k w)
