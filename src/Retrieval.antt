-- ===== src/Retrieval.antt =====
-- internal/usecase/retrieval/retrievalPipeline.go and internal/interface/rpc/synthyService.go.
pub mod Rpc
pub mod Cached
pub mod Rendered
pub mod Silent
use Prim.Native.String.{◌++◌ as append}
use synthy.Prelude.{
  String, ℕ, zero, suc, ◌&&◌, List, [], ◌∷◌, map, Option, none, some, Dict, lookup, insert,
  contains, not, ◌==◌, if◌then◌else◌,
}
use synthy.Exec.{Exec, pure, wrapping, ◌>>=◌}
use synthy.Model.{CodeChunk, CallEdge, ImportEdge, ChunkType, Language, go_language, other_language}
use synthy.Db.{Db}
use synthy.Db.Rows.{
  get_chunks_by_embedding_ids, get_call_edges_by_caller_symbol_id, get_import_edges_by_from_file_id,
}
use synthy.World.{
  World, Env, query, generate_embeddings, query_input, query_similar_vectors, default_namespace,
}
use synthy.Text.{decimal}

-- Go's int
pub data ℤ : Type 0 where
  pos negsuc : ℕ → ℤ

abbrev pub default_top_k : ℕ
default_top_k = 7

abbrev pub chosen_top_k : ℤ → ℕ
chosen_top_k (pos zero) = default_top_k
chosen_top_k (pos (suc n)) = suc n
chosen_top_k (negsuc n) = default_top_k

pub record RetrievalContext : Type 0 where
  pub formatted : String
  pub chunks : List CodeChunk

-- the edges of the ids that were looked up
pub record Cache (E : Type 0) : Type 0 where
  pub seen : List String
  pub edges : Dict (List E)

-- The maps of buildContext: the call edges by symbol, the import edges by file.
abbrev pub Caches : Type 0
Caches = Cache CallEdge × Cache ImportEdge

abbrev pub no_edges : Caches
no_edges = (record { seen = []; edges = [] }, record { seen = []; edges = [] })

abbrev or_empty : {E : Type 0} → Option (List E) → List E
or_empty none = []
or_empty (some edges) = edges

-- the read of a map, where a missing key is nil
unfoldable pub edges_of : {E : Type 0} → Cache E → String → List E
unfolding lookup
edges_of cache id = or_empty (lookup id cache.edges)

-- strings.Builder
abbrev pub write_all : List String → String
write_all [] = ""
write_all (part ∷ parts) = append part (write_all parts)

abbrev pub type_text : ChunkType → String
type_text ChunkType.function = "FUNCTION"
type_text ChunkType.type = "TYPE"
type_text ChunkType.block = "BLOCK"
type_text ChunkType.other = "OTHER"

abbrev pub language_text : Language → String
language_text Language.go_language = "GO"
language_text Language.other_language = "OTHER"

abbrev summary_text : Option String → String
summary_text none = ""
summary_text (some summary) =
    if summary == "" then "" else write_all ("Summary: " ∷ summary ∷ "\n" ∷ [])

abbrev alias_text : Option String → String
alias_text none = ""
alias_text (some alias) = if alias == "" then "" else write_all (" (alias: " ∷ alias ∷ ")" ∷ [])

abbrev call_text : CallEdge → String
call_text e = write_all ("  -> " ∷ e.callee_symbol_id ∷ "\n" ∷ [])

abbrev import_text : ImportEdge → String
import_text e = write_all (
    "  - "
    ∷ e.import_path
    ∷ alias_text e.alias
    ∷ (if e.is_external then " [external]" else "")
    ∷ "\n"
    ∷ [])

abbrev section_text : {E : Type 0} → String → (E → String) → List E → String
section_text title line [] = ""
section_text title line (e ∷ edges) = append title (write_all (map line (e ∷ edges)))

-- One chunk of the context, by its number, with its call edges and its file's import edges.
unfoldable pub chunk_text : ℕ → CodeChunk → List CallEdge → List ImportEdge → String
unfolding decimal
chunk_text i c calls imports = write_all (
    "--- Chunk "
    ∷ decimal i
    ∷ " | Type: "
    ∷ type_text c.type
    ∷ " | Language: "
    ∷ language_text c.language
    ∷ " | Lines: "
    ∷ decimal c.start_line
    ∷ "-"
    ∷ decimal c.end_line
    ∷ " ---\n"
    ∷ summary_text c.summary
    ∷ "Content:\n"
    ∷ c.content
    ∷ "\n"
    ∷ section_text "Outgoing Calls:\n" call_text calls
    ∷ section_text "File Imports:\n" import_text imports
    ∷ "\n"
    ∷ [])

-- the loop over the chunks that writes the context
unfoldable pub chunk_texts : Caches → ℕ → List CodeChunk → List String
unfolding chunk_text edges_of
chunk_texts caches i [] = []
chunk_texts caches i (c ∷ chunks) =
    chunk_text i c (edges_of caches.0 c.symbol_id) (edges_of caches.1 c.file_id)
    ∷ chunk_texts caches (suc i) chunks

abbrev pub title : String
title = "=== Retrieved Code Context ===\n\n"

module _ (env : Env) where
  -- An id is looked up unless it is empty or was looked up.
  unfoldable pub look_up_once :
      {E : Type 0} → String → (String → Db → List E) → String → Cache E → Exec World (Cache E)
  unfolding query insert contains
  look_up_once context f id cache =
      if not (id == "") && not (contains id cache.seen)
      then (do
        edges ← wrapping context (query env (f id))
        pure (record { seen = id ∷ cache.seen; edges = insert id edges cache.edges }))
      else pure cache

  unfoldable pub gather : List CodeChunk → Caches → Exec World Caches
  gather [] caches = pure caches
  gather (c ∷ chunks) (calls, imports) = do
    calls ←
        look_up_once "fetch call edges for symbol" get_call_edges_by_caller_symbol_id c.symbol_id
          calls
    imports ←
        look_up_once "fetch import edges for file" get_import_edges_by_from_file_id c.file_id
          imports
    gather chunks (calls, imports)

  unfoldable pub build_context : List CodeChunk → Exec World RetrievalContext
  build_context chunks = do
    caches ← gather chunks no_edges
    pure (record {
      formatted = append title (write_all (chunk_texts caches 1 chunks));
      chunks = chunks;
    })

  -- GetChunksByEmbeddingIDs asks the database only if there are ids.
  unfoldable pub chunks_by_embedding_ids : List String → Exec World (List CodeChunk)
  chunks_by_embedding_ids [] = pure []
  chunks_by_embedding_ids (id ∷ ids) = query env (get_chunks_by_embedding_ids (id ∷ ids))

  unfoldable pub retrieve : String → ℤ → Exec World RetrievalContext
  retrieve text top_k = do
    embeddings ← generate_embeddings env text query_input
    ids ← query_similar_vectors env embeddings (chosen_top_k top_k) default_namespace
    chunks ← chunks_by_embedding_ids ids
    build_context chunks
