-- ===== src/Ingestion/Spared.antt =====
-- A push's repository event, and a chunk whose file the push does not touch.
use synthy.Prelude.{String, ◌≡◌, true, ◌++◌, some}
use synthy.Exec.{attempt}
use synthy.Model.{Repository, CodeChunk}
use synthy.Text.{decimal}
use synthy.Db.Rows.{get_repository_by_external_id}
use synthy.Db.{Db}
use synthy.World.{World, Env}
use synthy.World.Steady.{Steady-wrapping}
use synthy.World.Leaves.{
  Leaves, Leaves-raise, Leaves-Steady, Leaves-whole, Leaves-if, Leaves-bind, Leaves-end,
}
use synthy.Vectors.{Wiring}
use synthy.Changes.{IngestionMessage}
use synthy.Cloner.{Clone}
use synthy.Github.Client.{Client}
use synthy.Pipeline.{go_files}
use synthy.Pipeline.Untouched.{Stored, Owned}
use synthy.Pipeline.Spared.{Misses, process_repository-Spared}
use synthy.Ingestion.{
  IngestionDelivery, is_incremental, input_of, index_clone, index_for, handle, handle_delivery,
}
use synthy.Ingestion.Steady.{
  clone-Steady, token_for-Steady, organization_for-Steady, handled-Steady, index_clone_after,
}

-- Indexing the Go files that the event names in its repository, if that is known, misses the chunk's
-- file.
abbrev pub PassesBy : CodeChunk → IngestionMessage → Db → Type 0
PassesBy c m db =
    (r : Repository)
    → get_repository_by_external_id (decimal m.repository_id) db ≡ some r
    → Misses c (go_files m.changed_paths ++ go_files m.removed_paths) r.id db

module _ (env : Env) (client : Client) (wiring : Wiring) (c : CodeChunk) (m : IngestionMessage)
    (pushed : is_incremental m.event_type ≡ true) where
  abbrev Untouched : Db → Type 0
  Untouched db = Owned c db × PassesBy c m db

  kept : (db : Db) → Untouched db → Stored c db
  kept db (o, _) = o.stored

  index_clone-Leaves :
      (organization : String) (made : Clone)
      → Leaves
          (Stored c)
          Untouched
          (index_clone env client wiring m organization made)
          (λ _. Stored c)
  unfolding input_of
  index_clone-Leaves organization made = Leaves-whole _ λ w s.
      index_clone_after env client wiring (Stored c) m organization made w
        (process_repository-Spared env wiring c made.path (input_of m organization) pushed w s)

  index_for-Leaves :
      (token organization : String)
      → Leaves
          (Stored c)
          Untouched
          (index_for env client wiring m token organization)
          (λ _. Stored c)
  index_for-Leaves token organization = Leaves-if _ _ _ (Leaves-raise _ kept) (
      Leaves-bind _ _
        (Leaves-Steady _ (Steady-wrapping _ _ (clone-Steady env client wiring _ _ _ _)) kept)
        (index_clone-Leaves organization))

  handle-Leaves : Leaves (Stored c) Untouched (handle env client wiring m) (λ _. Stored c)
  unfolding handle
  handle-Leaves =
      Leaves-bind _ _ (Leaves-Steady _ (token_for-Steady env client wiring m) kept) λ token.
        Leaves-bind _ _ (Leaves-Steady _ (organization_for-Steady env client wiring m) kept)
          (index_for-Leaves token)

  attempted : Leaves (Stored c) Untouched (attempt (handle env client wiring m)) (λ _. Stored c)
  unfolding attempt
  attempted = Leaves-whole _ (Leaves-end _ handle-Leaves (λ _ db s. s))

-- Handling a push event keeps the chunk.
pub handle_delivery-Spared :
    (env : Env) (client : Client) (wiring : Wiring) (c : CodeChunk) (d : IngestionDelivery)
    → is_incremental d.message.event_type ≡ true
    → (w : World) → Owned c w.db × PassesBy c d.message w.db
    → Stored c (handle_delivery env client wiring d w).1.db
unfolding handle_delivery
handle_delivery-Spared env client wiring c d pushed =
    Leaves-end _
      (Leaves-bind _ _ (attempted env client wiring c d.message pushed)
        (λ done. Leaves-Steady _ (handled-Steady env client wiring d.tag done) (λ db s. s)))
      (λ _ db s. s)
