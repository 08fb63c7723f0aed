-- ===== src/Pipeline/Growth/Chunks.antt =====
-- The rows of chunks.
use synthy.Prelude.{String, List, [], ◌∷◌, Option, none, some}
use synthy.World.Keeps.{Keeps, Keeps-pure, Keeps-raise, Keeps-if, Keeps-bind, Keeps-wrapping}
use synthy.Model.{Symbol, CodeChunk, ChunkType}
use synthy.Db.{Db, insert_chunk}
use synthy.World.{Env}
use synthy.World.Growth.{
  OnDb, Grows, insert_batch-Keeps, read_file-Keeps, parse_file-Keeps, growth_rules,
}
use synthy.Packages.{
  Extent, Spec, Decl, TypeExpr, type_decl, other_spec, function_decl, general_decl, struct_type,
  interface_type, star_expr, other_expr,
}
use synthy.Chunker
use synthy.Chunker.{RawChunk, Sorted}

module _ (env : Env) (Q : Db → Type 0) where
  build_chunk-Keeps :
      (e : Extent) (kind : ChunkType) → Keeps (OnDb Q) (Chunker.build_chunk env e kind)
  unfolding Chunker.build_chunk
  build_chunk-Keeps e kind =
      Keeps-bind _ _
        (Keeps-bind _ _ (Keeps-wrapping _ _ (read_file-Keeps env Q _))
          (λ content. Keeps-if _ _ _ (Keeps-pure _) (Keeps-raise _)))
        (λ content. Keeps-pure _)

  one_chunk-Keeps : (t : TypeExpr) (e : Extent) → Keeps (OnDb Q) (Chunker.build_type_chunk env t e)
  one_chunk-Keeps struct_type e = Keeps-bind _ _ (build_chunk-Keeps e _) (λ c. Keeps-pure _)
  one_chunk-Keeps interface_type e = Keeps-bind _ _ (build_chunk-Keeps e _) (λ c. Keeps-pure _)
  one_chunk-Keeps star_expr e = Keeps-pure []
  one_chunk-Keeps other_expr e = Keeps-pure []

  build_specs-Keeps : (specs : List Spec) → Keeps (OnDb Q) (Chunker.build_specs env specs)
  unfolding Chunker.build_specs
  build_specs-Keeps [] = Keeps-pure []
  build_specs-Keeps (other_spec ∷ specs) = build_specs-Keeps specs
  build_specs-Keeps (type_decl t e ∷ specs) =
      Keeps-bind _ _ (one_chunk-Keeps t e)
        (λ chunks. Keeps-bind _ _ (build_specs-Keeps specs) (λ rest. Keeps-pure _))

  build_decls-Keeps : (decls : List Decl) → Keeps (OnDb Q) (Chunker.build_decls env decls)
  unfolding Chunker.build_decls
  build_decls-Keeps [] = Keeps-pure []
  build_decls-Keeps (function_decl e ∷ decls) =
      Keeps-bind _ _ (build_chunk-Keeps e _)
        (λ c. Keeps-bind _ _ (build_decls-Keeps decls) (λ rest. Keeps-pure _))
  build_decls-Keeps (general_decl specs ∷ decls) =
      Keeps-bind _ _ (build_specs-Keeps specs)
        (λ chunks. Keeps-bind _ _ (build_decls-Keeps decls) (λ rest. Keeps-pure _))

  or_whole-Keeps :
      (e : Extent) (chunks : List RawChunk) → Keeps (OnDb Q) (Chunker.or_whole env e chunks)
  or_whole-Keeps e [] =
      Keeps-bind _ _ (Keeps-wrapping _ _ (build_chunk-Keeps e _)) (λ c. Keeps-pure _)
  or_whole-Keeps e (c ∷ chunks) = Keeps-pure _

  pub build-Keeps : (path : String) → Keeps (OnDb Q) (Chunker.build env path)
  unfolding Chunker.build
  build-Keeps path = Keeps-bind _ _ (parse_file-Keeps env Q path) (λ node.
      Keeps-bind _ _ (Keeps-wrapping _ _ (build_decls-Keeps node.decls))
        (or_whole-Keeps node.whole))

  module _ (id file_id path : String) (symbols : List Symbol) where
    match_chunk-Keeps :
        (c : RawChunk) (sym : Option Symbol) (s : Sorted)
        → Keeps (OnDb Q) (Chunker.match_chunk env id file_id path symbols c sym s)
    match_chunk-Keeps c none s = Keeps-pure _
    match_chunk-Keeps c (some sym) s = search growth_rules

    pub sort_chunks-Keeps :
        (raw : List RawChunk) (s : Sorted)
        → Keeps (OnDb Q) (Chunker.sort_chunks env id file_id path symbols raw s)
    unfolding Chunker.sort_chunks
    sort_chunks-Keeps [] s = Keeps-pure s
    sort_chunks-Keeps (c ∷ raw) s =
        Keeps-bind _ _ (Keeps-if _ _ _ (Keeps-pure _) (match_chunk-Keeps c _ s))
          (sort_chunks-Keeps raw)

    module _ (g : Grows Q) where
      store-Keeps :
          (chunks : List CodeChunk)
          → Keeps (OnDb Q) (Chunker.store env id file_id path symbols chunks)
      store-Keeps [] = Keeps-pure []
      store-Keeps (c ∷ chunks) =
          Keeps-bind _ _
            (Keeps-wrapping _ _ (insert_batch-Keeps env Q _ insert_chunk g.chunk (c ∷ chunks)))
            (λ _. Keeps-pure _)

      pub process_file-Keeps : Keeps (OnDb Q) (Chunker.process_file env id file_id path symbols)
      unfolding Chunker.process_file
      process_file-Keeps =
          Keeps-bind _ _ (Keeps-wrapping _ _ (build-Keeps path))
            (λ raw. Keeps-bind _ _ (sort_chunks-Keeps raw _) (λ s. store-Keeps s.chunks))
