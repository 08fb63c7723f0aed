-- ===== src/Pipeline/Identity.antt =====
-- ProcessRepository of internal/usecase/analysis/analysisPipeline.go and the identity of the stored
-- repositories.
use synthy.Pipeline.Run.{Lives, process_repository-Keeps}
use synthy.Prelude.{
  String, ◌≡◌, refl, arith, Bool, [], ◌∷◌, Member, Member-append_left, Member-keep, Member-map_on,
  contains, exists,
}
use synthy.Model.{Repository, File}
use synthy.Db.{
  Db, insert_file, insert_symbol, insert_chunk, insert_call_edge, insert_import_edge,
  insert_repository, delete_cascade,
}
use synthy.Db.Rows.{update_repository, refresh}
use synthy.World.{World, Env}
use synthy.World.Growth.{Inserts, Grows}
use synthy.Vectors.{Wiring}
use synthy.Pipeline.{RepositoryInput, process_repository}

-- The columns of a repository that indexing never changes.
abbrev pub SameIdentity : Repository → Repository → Type 0
SameIdentity r row =
    (row.id ≡ r.id)
    × (row.organization_id ≡ r.organization_id)
    × (row.external_id ≡ r.external_id)
    × (row.created_at ≡ r.created_at)

module _ (r : Repository) where
  abbrev pub Registered : Db → Type 0
  Registered db = (row : Repository) × Member row db.repositories × SameIdentity r row

  Registered-Grows : Grows Registered
  unfolding insert_file insert_symbol insert_chunk insert_call_edge insert_import_edge
  Registered-Grows = record {
    others = record {
      file = λ f. record { at = λ db db' q (row, m, s). (row, ground arith, s) };
      symbol = λ f. record { at = λ db db' q (row, m, s). (row, ground arith, s) };
      call_edge = λ f. record { at = λ db db' q (row, m, s). (row, ground arith, s) };
      import_edge = λ f. record { at = λ db db' q (row, m, s). (row, ground arith, s) };
    };
    chunk = λ f. record { at = λ db db' q (row, m, s). (row, ground arith, s) };
  }

  delete_cascade-Registered :
      (p : File → Bool) (db : Db) → Registered db → Registered (delete_cascade [] p db)
  unfolding delete_cascade contains exists
  delete_cascade-Registered p db (row, m, s) =
      (row, (Member-keep _ row db.repositories).1 (m, refl), s)

  update-Registered :
      (fresh : Repository) (db : Db) → Registered db → Registered (update_repository fresh db)
  unfolding update_repository
  update-Registered fresh db (row, m, s) =
      (refresh fresh row, Member-map_on (refresh fresh) row db.repositories m, ground arith)

  insert-Registered : (new : Repository) → Inserts Registered (insert_repository new)
  unfolding insert_repository
  insert-Registered new = record {
    at = λ db db' q (row, m, s).
        (row, ground (arith, Member-append_left row db.repositories (new ∷ []) m), s);
  }

  Registered-Lives : Lives Registered
  Registered-Lives = record {
    grows = Registered-Grows;
    survives = record {
      registers = insert-Registered;
      updates = update-Registered;
      deletes = delete_cascade-Registered;
    };
  }

  -- A repository row that is there before an index run, of this or of any other repository, is there
  -- after it with the same id, organization, external id and time of creation, whether the run is
  -- full or incremental and whether it succeeds or fails.
  pub process_repository_keeps_identity :
      (env : Env) (wiring : Wiring) (path : String) (input : RepositoryInput) (w : World)
      → Member r w.db.repositories
      → (row : Repository) × Member row
          (process_repository env wiring path input w).1.db.repositories
        × SameIdentity r row
  process_repository_keeps_identity env wiring path input w m =
      (process_repository-Keeps env wiring Registered Registered-Lives path input).at w
        (r, m, (refl, refl, refl, refl))
