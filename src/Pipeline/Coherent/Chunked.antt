-- ===== src/Pipeline/Coherent/Chunked.antt =====
-- The chunks that internal/core/chunker/service.go stores, and their symbols.
use synthy.Prelude.{String, ◌≡◌, List, [], ◌∷◌, Dict, All, All-map, All-Member, Member-keep, ==_iff}
use synthy.Model.{File, Symbol, CodeChunk}
use synthy.Db.{Db, insert_chunk}
use synthy.Db.Coherent.{Owns, IsCoherent, insert_chunk_inserted, insert_chunk-IsCoherent}
use synthy.World.{Env}
use synthy.World.Keeps.{Keeps-pure, Keeps-bind, Keeps-wrapping}
use synthy.World.Growth.{Inserts, insert_listed-Keeps}
use synthy.World.Leaves.{
  Leaves, Leaves-after, Leaves-pure, Leaves-Keeps, Leaves-given, Leaves-known, Leaves-bind,
  Leaves-wrapping,
}
use synthy.Chunker.{store, process_file}
use synthy.Chunker.Kept.{IsKept, sort_chunks_accounts}
use synthy.Vectors.{Wiring}
use synthy.Pipeline.{symbols_for_file, chunk_and_publish}
use synthy.Pipeline.Growth.Chunks.{build-Keeps, sort_chunks-Keeps}
use synthy.Pipeline.Growth.{publish_chunks-Keeps}
use synthy.Pipeline.Coherent.Saved.{Pinned, Indexed, AreOf}

module _ (env : Env) (wiring : Wiring) (id : String) (symbols : List Symbol)
    (of : AreOf id symbols) where
  module _ (file_id path : String) where
    -- the symbols of this file
    own : List Symbol
    own = symbols_for_file symbols file_id

    kept-Owns :
        (c : CodeChunk) (db : Db)
        → IsKept env id file_id path own c
        → Pinned symbols db
        → Owns c.symbol_id c.file_id c.repository_id db.symbols
    unfolding own symbols_for_file
    kept-Owns c db k pinned =
        let (m, same_file) = (Member-keep _ k.symbol symbols).0 k.known in
        let o = pinned k.symbol m in
        let repository = All-Member (λ (s : Symbol). s.repository_id ≡ id) k.symbol symbols of m in
        rw
          (
            k.points,
            k.file,
            k.repository,
            ← (==_iff k.symbol.file_id file_id).0 same_file,
            ← repository,
          )
          o

    kept-Inserts :
        (c : CodeChunk)
        → IsKept env id file_id path own c
        → Inserts (Indexed symbols) (insert_chunk c)
    kept-Inserts c k = record {
      at = λ db db' e (coherent, pinned). (
        insert_chunk-IsCoherent c db db' e (kept-Owns c db k pinned) coherent,
        λ s m. rw ((insert_chunk_inserted c db db' e).1) (pinned s m),
      );
    }

    store-Leaves :
        (chunks : List CodeChunk)
        → All (IsKept env id file_id path own) chunks
        → Leaves IsCoherent
            (Indexed symbols)
            (store env id file_id path own chunks)
            (λ _. Indexed symbols)
    store-Leaves [] k = Leaves-pure [] (λ db i. i)
    store-Leaves (c ∷ chunks) k =
        Leaves-Keeps _
          (Keeps-bind _ _
            (Keeps-wrapping _ _ (
              insert_listed-Keeps env (Indexed symbols) _ insert_chunk (c ∷ chunks)
                (All-map (IsKept env id file_id path own) _ kept-Inserts (c ∷ chunks) k)))
            (λ _. Keeps-pure _))
          (λ db i. i.0)

    process_file-Leaves :
        Leaves IsCoherent
          (Indexed symbols)
          (process_file env id file_id path own)
          (λ _. Indexed symbols)
    unfolding process_file
    process_file-Leaves =
        Leaves-bind _ _
          (Leaves-Keeps _ (Keeps-wrapping _ _ (build-Keeps env (Indexed symbols) path))
            (λ db i. i.0))
          λ raw.
            Leaves-bind _ _
              (Leaves-given (λ s. All (IsKept env id file_id path own) s.chunks) _
                (sort_chunks-Keeps env (Indexed symbols) id file_id path own raw _)
                (λ w s e. (sort_chunks_accounts env id file_id path own raw s w e).1) (λ db i. i.0))
              (λ s. Leaves-known _ _ (store-Leaves s.chunks))

  chunk_files-Leaves :
      (files : Dict File)
      → Leaves IsCoherent
          (Indexed symbols)
          (chunk_and_publish env wiring id symbols files)
          (λ _. Indexed symbols)
  unfolding chunk_and_publish own
  chunk_files-Leaves [] = Leaves-pure tt (λ db i. i)
  chunk_files-Leaves ((path, f) ∷ files) =
      Leaves-bind _ _ (Leaves-wrapping _ _ (process_file-Leaves f.id path)) λ chunks.
        Leaves-bind _ _
          (Leaves-Keeps _ (publish_chunks-Keeps env wiring (Indexed symbols) id chunks)
            (λ db i. i.0))
          (λ _. chunk_files-Leaves files)

  -- The chunks of the files point at the given symbols.
  pub chunk_and_publish-Leaves :
      (files : Dict File)
      → Leaves IsCoherent
          (Indexed symbols)
          (chunk_and_publish env wiring id symbols files)
          (λ _. IsCoherent)
  chunk_and_publish-Leaves files =
      Leaves-after _ (chunk_files-Leaves files) (λ _ db indexed. indexed.0)
