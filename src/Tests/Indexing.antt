-- ===== src/Tests/Indexing.antt =====
-- Index runs, their parts and the vectors they delete.
use synthy.Prelude.{
  String, ◌≡◌, refl, ◌≢◌, sym, ap, ◌∙◌, inl, inr, arith, true, false, [], ◌∷◌, ◌++◌, some, Member,
  contains, exists, keep, ◌==◌, String_discrete,
}
use synthy.Model.{Repository, File, Symbol, CallEdge, ImportEdge}
use synthy.Db.{insert_call_edge}
use synthy.Db.Rows.{get_files_by_repository_id, get_chunks_by_repository_id, get_chunks_by_file_id}
use synthy.World.{insert_batch}
use synthy.World.Batch.{WholeOrNothing, insert_batch_atomic}
use synthy.Paths.{is_abs, ext}
use synthy.Vectors.{delete_vectors_for_chunks, embedding_ids}
use synthy.Vectors.Batches.{Deleted, delete_vectors_for_chunks-Deleted}
use synthy.Pipeline.{
  go_files, process_incremental, process_repository, build_edges, clear_index, discard_file,
}
use synthy.Pipeline.Untouched.{Owned, Elsewhere}
use synthy.Pipeline.Incremental.{process_incremental_keeps_chunk}
use synthy.Pipeline.Ordering.{DeletedBefore, clear_index_order, discard_file_order}
use synthy.Pipeline.Edges.{build_edges_keeps_edges}
use synthy.Pipeline.Identity.{SameIdentity, process_repository_keeps_identity}
use synthy.Tests.Fixtures.{
  quiet, repo, some_file, keep_chunk, edit_chunk, edge, indexed, wired, push,
}

differ : (s t : String) → (s == t) ≡ false → s ≢ t
differ s t f = ground arith

all_relative : exists (λ f. is_abs f.path) (get_files_by_repository_id "r" indexed.db) ≡ false
unfolding get_files_by_repository_id exists String_discrete keep is_abs
all_relative = refl

other_symbol : ◌≢◌ {A = String} "s2" "s1"
unfolding String_discrete
other_symbol = differ "s2" "s1" refl

other_file : ◌≢◌ {A = String} "f2" "f1"
unfolding String_discrete
other_file = differ "f2" "f1" refl

owned : Owned keep_chunk indexed.db
owned = record {
  stored = inl refl;
  symbol_in_file = λ s m e. elim m [
    | inl first ↦ sym (ap (λ (s : Symbol). s.file_id) first)
    | inr (inl second) ↦ elim (other_symbol (ap (λ (s : Symbol). s.id) second ∙ e)) [ ]
    | inr (inr none_left) ↦ elim none_left [ ]
  ];
}

unlisted : contains "keep.go" (go_files push.changed_paths ++ go_files push.removed_paths) ≡ false
unfolding go_files contains exists keep ext String_discrete
unlisted = refl

elsewhere :
    Elsewhere keep_chunk (go_files push.changed_paths ++ go_files push.removed_paths) "r" indexed.db
elsewhere f m mine e = elim m [
  | inl first ↦ elim (keep_go f (ap (λ (f : File). f.path) first) e) [ ]
  | inr (inl second) ↦ λ q. other_file (ap (λ (f : File). f.id) second ∙ q)
  | inr (inr none_left) ↦ elim none_left [ ]
]
  where
    keep_go :
        (f : File)
        → "keep.go" ≡ f.path
        → contains f.path (go_files push.changed_paths ++ go_files push.removed_paths) ≡ true
        → ⊥
    keep_go f same listed = ground (arith, unlisted)

process_incremental_keeps_chunk_example :
    Member keep_chunk (process_incremental quiet wired "/tmp/r" repo push indexed).1.db.chunks
process_incremental_keeps_chunk_example =
    process_incremental_keeps_chunk quiet wired keep_chunk "/tmp/r" repo push indexed
      (inl all_relative) owned elsewhere

clear_index_order_example :
    DeletedBefore
      (embedding_ids (get_chunks_by_repository_id "r" indexed.db))
      indexed
      (clear_index quiet wired "r" indexed).1
clear_index_order_example = clear_index_order quiet wired refl "r" indexed

discard_file_order_example :
    DeletedBefore
      (embedding_ids (get_chunks_by_file_id "f1" indexed.db))
      indexed
      (discard_file quiet wired (some (some_file "f1" "keep.go")) indexed).1
discard_file_order_example = discard_file_order quiet wired refl (some_file "f1" "keep.go") indexed

process_repository_keeps_identity_example :
    (row : Repository) × Member row
      (process_repository quiet wired "/tmp/r" push indexed).1.db.repositories
    × SameIdentity repo row
process_repository_keeps_identity_example =
    process_repository_keeps_identity repo quiet wired "/tmp/r" push indexed (inl refl)

insert_batch_atomic_example :
    WholeOrNothing quiet insert_call_edge
      (edge ∷ [])
      indexed
      (insert_batch quiet "insert call edge" insert_call_edge (edge ∷ []) indexed)
insert_batch_atomic_example =
    insert_batch_atomic quiet "insert call edge" insert_call_edge (edge ∷ []) indexed

delete_vectors_for_chunks-Deleted_example :
    Deleted 1000
      (embedding_ids (keep_chunk ∷ edit_chunk ∷ []))
      indexed
      (delete_vectors_for_chunks quiet wired (keep_chunk ∷ edit_chunk ∷ []) indexed)
delete_vectors_for_chunks-Deleted_example =
    delete_vectors_for_chunks-Deleted quiet wired (keep_chunk ∷ edit_chunk ∷ []) indexed refl

build_edges_keeps_edges_example :
    ((e : CallEdge)
      → Member e indexed.db.call_edges
      → Member e (build_edges quiet wired "r" [] [] [] indexed).1.db.call_edges)
    × ((e : ImportEdge)
        → Member e indexed.db.import_edges
        → Member e (build_edges quiet wired "r" [] [] [] indexed).1.db.import_edges)
build_edges_keeps_edges_example = build_edges_keeps_edges quiet wired "r" [] [] [] indexed
