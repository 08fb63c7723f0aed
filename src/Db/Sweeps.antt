-- ===== src/Db/Sweeps.antt =====
-- The statements of internal/infra/psql that no other component calls: the deletes of all rows of one
-- kind of a repository, and the chunks that wait for a vector.
use synthy.Prelude.{
  String, ℕ, Bool, true, false, not, leb, List, [], ◌∷◌, map, none, some, keep, take, ◌==◌,
  if◌then◌else◌,
}
use synthy.Model.{CodeChunk, CallEdge, ImportEdge}
use synthy.Db.{Db, gone_chunk, gone_call, orphan}

unfoldable pub delete_chunks_by_repository_id : String → Db → Db
delete_chunks_by_repository_id id db = record db {
  chunks = keep (λ c. not (c.repository_id == id)) db.chunks;
}

-- With the symbols go the chunks and the call edges that refer to them.
unfoldable pub delete_symbols_by_repository_id : String → Db → Db
delete_symbols_by_repository_id id db =
    let gone = map (λ s. s.id) (keep (λ s. s.repository_id == id) db.symbols) in
    record db {
      symbols = map (orphan gone) (keep (λ s. not (s.repository_id == id)) db.symbols);
      chunks = keep (λ c. not (gone_chunk [] [] gone c)) db.chunks;
      call_edges = keep (λ e. not (gone_call [] [] gone e)) db.call_edges;
    }

unfoldable pub delete_call_edges_by_repository_id : String → Db → Db
delete_call_edges_by_repository_id id db = record db {
  call_edges = keep (λ e. not (e.repository_id == id)) db.call_edges;
}

unfoldable pub delete_import_edges_by_repository_id : String → Db → Db
delete_import_edges_by_repository_id id db = record db {
  import_edges = keep (λ e. not (e.repository_id == id)) db.import_edges;
}

unfoldable pub get_call_edges_by_repository_id : String → Db → List CallEdge
get_call_edges_by_repository_id id db = keep (λ e. e.repository_id == id) db.call_edges

unfoldable pub get_import_edges_by_repository_id : String → Db → List ImportEdge
get_import_edges_by_repository_id id db = keep (λ e. e.repository_id == id) db.import_edges

abbrev pub waits : CodeChunk → Bool
waits c = elim c.embedding_id [ none ↦ true | some e ↦ false ]

-- ORDER BY created_at ASC
unfoldable pub insert_oldest : CodeChunk → List CodeChunk → List CodeChunk
insert_oldest c [] = c ∷ []
insert_oldest c (d ∷ rest) =
    let later = insert_oldest c rest in
    if leb c.created_at d.created_at then c ∷ d ∷ rest else d ∷ later

unfoldable pub oldest_first : List CodeChunk → List CodeChunk
oldest_first [] = []
oldest_first (c ∷ rest) = insert_oldest c (oldest_first rest)

unfoldable pub get_chunks_without_embedding : ℕ → Db → List CodeChunk
unfolding oldest_first insert_oldest
get_chunks_without_embedding limit db = take limit (oldest_first (keep waits db.chunks))
