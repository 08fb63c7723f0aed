-- ===== src/Chunker.antt =====
-- internal/core/chunker/service.go: a file is cut into chunks, each is matched to a symbol by its
-- lines, and the chunks that match are stored.
pub mod Kept
use synthy.Text.{is_blank, byte_length, byte_slice}
use synthy.Prelude.{
  String, ℕ, suc, Bool, ◌&&◌, List, [], ◌∷◌, ◌++◌, Option, none, some, find, leb, if◌then◌else◌,
}
use synthy.Exec.{Exec, message, pure, raise, wrapping, ◌>>=◌, ◌>>◌}
use synthy.Model.{Symbol, CodeChunk, ChunkType}
use synthy.Db.{insert_chunk}
use synthy.World.{World, Env, read_file, parse_file, generate_id, time_now, insert_batch}
use synthy.Files.{language_of}
use synthy.Packages.{
  Extent, Spec, TypeExpr, Decl, type_decl, other_spec, function_decl, general_decl, struct_type,
  interface_type, star_expr, other_expr,
}

abbrev pub spans : ℕ → ℕ → Symbol → Bool
spans start_line end_line sym = leb sym.start_line start_line && leb end_line sym.end_line

-- The first symbol whose lines contain the given ones.
unfoldable pub match_symbol : List Symbol → ℕ → ℕ → Option Symbol
match_symbol symbols start_line end_line = find (spans start_line end_line) symbols

-- A chunk as Build returns it, before the database fields are filled in.
pub record RawChunk : Type 0 where
  pub content : String
  pub content_hash : String
  pub type : ChunkType
  pub start_line : ℕ
  pub end_line : ℕ

-- `unmatched`, `blank` and the chunks kept, of ProcessFile's loop
pub record Sorted : Type 0 where
  pub chunks : List CodeChunk
  pub unmatched : ℕ
  pub blank : ℕ

module _ (env : Env) where
  abbrev pub in_bounds : Extent → String → Bool
  in_bounds e content = leb e.end_offset (byte_length content) && leb e.start_offset e.end_offset

  unfoldable pub extract_source : Extent → Exec World String
  extract_source e = do
    content ← wrapping "read" (read_file env e.filename)
    if in_bounds e content
        then pure (byte_slice content e.start_offset e.end_offset)
        else raise (message "extract source: offsets out of bounds")

  unfoldable pub build_chunk : Extent → ChunkType → Exec World RawChunk
  unfolding extract_source
  build_chunk e kind = do
    content ← extract_source e
    pure (record {
      content = content;
      content_hash = env.sha256hex content;
      type = kind;
      start_line = e.start_line;
      end_line = e.end_line;
    })

  abbrev pub build_type_chunk : TypeExpr → Extent → Exec World (List RawChunk)
  build_type_chunk struct_type e = do c ← build_chunk e ChunkType.type; pure (c ∷ [])
  build_type_chunk interface_type e = do c ← build_chunk e ChunkType.type; pure (c ∷ [])
  build_type_chunk star_expr e = pure []
  build_type_chunk other_expr e = pure []

  unfoldable pub build_specs : List Spec → Exec World (List RawChunk)
  unfolding build_chunk
  build_specs [] = pure []
  build_specs (other_spec ∷ specs) = build_specs specs
  build_specs (type_decl t e ∷ specs) = do
    chunks ← build_type_chunk t e
    rest ← build_specs specs
    pure (chunks ++ rest)

  -- The callback of ast.Inspect, which stops at the first error.
  unfoldable pub build_decls : List Decl → Exec World (List RawChunk)
  unfolding build_specs
  build_decls [] = pure []
  build_decls (function_decl e ∷ decls) = do
    c ← build_chunk e ChunkType.function
    rest ← build_decls decls
    pure (c ∷ rest)
  build_decls (general_decl specs ∷ decls) = do
    chunks ← build_specs specs
    rest ← build_decls decls
    pure (chunks ++ rest)

  -- A file with no such declaration is one chunk.
  abbrev pub or_whole : Extent → List RawChunk → Exec World (List RawChunk)
  or_whole whole [] = do
    c ← wrapping "build file chunk" (build_chunk whole ChunkType.other)
    pure (c ∷ [])
  or_whole whole (c ∷ chunks) = pure (c ∷ chunks)

  unfoldable pub build : String → Exec World (List RawChunk)
  unfolding build_decls
  build path = do
    node ← parse_file env path
    chunks ← wrapping "build chunks" (build_decls node.decls)
    or_whole node.whole chunks

  module _ (repository_id file_id path : String) (symbols : List Symbol) where
    abbrev pub chunk_row : RawChunk → Symbol → String → ℕ → CodeChunk
    chunk_row c sym id now = record {
      id = id;
      repository_id = repository_id;
      file_id = file_id;
      symbol_id = sym.id;
      content = c.content;
      content_hash = c.content_hash;
      type = c.type;
      language = language_of path;
      start_line = c.start_line;
      end_line = c.end_line;
      embedding_id = none;
      summary = none;
      created_at = now;
      updated_at = now;
    }

    abbrev pub match_chunk : RawChunk → Option Symbol → Sorted → Exec World Sorted
    match_chunk c none s = pure (record s { unmatched = suc s.unmatched })
    match_chunk c (some sym) s = do
      id ← generate_id env
      now ← time_now env
      pure (record s { chunks = s.chunks ++ chunk_row c sym id now ∷ [] })

    unfoldable pub sort_chunk : RawChunk → Sorted → Exec World Sorted
    unfolding match_symbol is_blank
    sort_chunk c s =
        if is_blank c.content
        then pure (record s { blank = suc s.blank })
        else match_chunk c (match_symbol symbols c.start_line c.end_line) s

    unfoldable pub sort_chunks : List RawChunk → Sorted → Exec World Sorted
    unfolding sort_chunk
    sort_chunks [] s = pure s
    sort_chunks (c ∷ raw) s = do next ← sort_chunk c s; sort_chunks raw next

    abbrev pub store : List CodeChunk → Exec World (List CodeChunk)
    store [] = pure []
    store (c ∷ chunks) = do
      wrapping "insert chunks" (insert_batch env "insert chunk" insert_chunk (c ∷ chunks))
      pure (c ∷ chunks)

    unfoldable pub process_file : Exec World (List CodeChunk)
    unfolding sort_chunks build
    process_file = do
      raw ← wrapping "build chunks" (build path)
      s ← sort_chunks raw (record { chunks = []; unmatched = 0; blank = 0 })
      store s.chunks
