-- ===== src/Pipeline/Spared.antt =====
-- ProcessRepository of internal/usecase/analysis/analysisPipeline.go and a chunk whose file a push
-- does not touch.
use synthy.Exec.{ok, pure, wrapping, ◌>>=◌}
use mathlib.Core.Path.{subst}
use synthy.Prelude.{
  String, ◌≡◌, refl, true, false, List, [], ◌∷◌, ◌++◌, Option, none, some, inl, inr, arith, Member,
  exists, keep, ◌==◌, ==_iff, Bool-cases, ◌⊎◌, sym,
}
use synthy.Model.{Repository, File, CodeChunk}
use synthy.Db.{Db, insert_repository}
use synthy.Db.Rows.{update_repository, get_files_by_repository_id, get_repository_by_external_id}
use synthy.World.{World, Env, query, time_now, execute, statement}
use synthy.World.Growth.{Inserts}
use synthy.World.Leaves.{
  Leaves, Leaves-Keeps, Leaves-whole, Leaves-bind, Leaves-end, Leaves-wrapping, query-Leaves,
  Leaves-given, Leaves-known,
}
use synthy.Paths.{is_abs}
use synthy.Vectors.{Wiring}
use synthy.Pipeline.{
  RepositoryInput, go_files, process_incremental, process_existing, process_repository,
  upsert_repository_record, upsert,
}
use synthy.Pipeline.Run.{upsert-Keeps, process_first-Keeps}
use synthy.Pipeline.Untouched.{Stored, Stored-Grows, Owned, Elsewhere, Outside}
use synthy.Pipeline.Incremental.{process_incremental_keeps_chunk}

-- No file row of the repository has an absolute path.
abbrev pub Relative : String → Db → Type 0
Relative id db = (f : File) → Member f db.files → f.repository_id ≡ id → is_abs f.path ≡ false

-- An incremental index of the repository for these paths does not touch the chunk's file.
abbrev pub Misses : CodeChunk → List String → String → Db → Type 0
Misses c paths id db = Elsewhere c paths id db × (Relative id db ⊎ Outside c id db)

pub record Spared (c : CodeChunk) (paths : List String) (id : String) (db : Db) : Type 0 where
  pub owned : Owned c db
  pub misses : Misses c paths id db

exists-none :
    (id : String) (files : List File)
    → ((f : File) → Member f files → f.repository_id ≡ id → is_abs f.path ≡ false)
    → exists (λ f. is_abs f.path) (keep (λ f. f.repository_id == id) files) ≡ false
unfolding exists keep
exists-none id [] each = refl
exists-none id (f ∷ files) each =
    let rest = exists-none id files (λ g m. each g (inr m)) in
    let head = each f (inl refl) in
    elim (Bool-cases (f.repository_id == id)) [
      | inl mine ↦ ground (arith, rest, mine, head ((==_iff f.repository_id id).0 mine))
      | inr other ↦ ground (arith, rest, other)
    ]

module _ (c : CodeChunk) (paths : List String) (id : String) where
  Spared-same :
      (db db' : Db)
      → db'.files ≡ db.files
      → db'.symbols ≡ db.symbols
      → db'.chunks ≡ db.chunks
      → Spared c paths id db
      → Spared c paths id db'
  Spared-same db db' files symbols chunks s = record {
    owned = record {
      stored = rw chunks (s.owned.stored);
      symbol_in_file = λ t m e. s.owned.symbol_in_file t (rw symbols at m) e;
    };
    misses =
        subst (λ (fs : List File). Misses c paths id (record db { files = fs })) (sym files)
          s.misses;
  }

  registered : (r : Repository) → Inserts (Spared c paths id) (insert_repository r)
  unfolding insert_repository
  registered r = record {
    at = λ db db' e. Spared-same db db' (ground (arith, e)) (ground (arith, e)) (ground (arith, e));
  }

  updated :
      (r : Repository) (db : Db) → Spared c paths id db → Spared c paths id (update_repository r db)
  unfolding update_repository
  updated r db = Spared-same db (update_repository r db) refl refl refl

stays_registered : (c : CodeChunk) (r : Repository) → Inserts (Stored c) (insert_repository r)
unfolding insert_repository
stays_registered c r = record { at = λ db db' e m. ground arith }

module _ (env : Env) (wiring : Wiring) (c : CodeChunk) (path : String) (input : RepositoryInput)
    (pushed : input.incremental ≡ true) where
  abbrev paths : List String
  paths = go_files input.changed_paths ++ go_files input.removed_paths

  -- The repository of the push, if there is one yet, is indexed without touching the chunk's file.
  abbrev pub Untouched : Db → Type 0
  Untouched db =
      Owned c db
      × ((r : Repository)
          → get_repository_by_external_id input.external_id db ≡ some r
          → Misses c paths r.id db)

  abbrev Found : Option Repository → Db → Type 0
  Found none = Stored c
  Found (some r) = Spared c paths r.id

  found-Found :
      (existing : Option Repository) (db : Db)
      → get_repository_by_external_id input.external_id db ≡ existing
      → Untouched db
      → Found existing db
  found-Found none db e (o, misses) = o.stored
  found-Found (some r) db e (o, misses) = record { owned = o; misses = misses r e }

  found :
      Leaves
        (Stored c)
        Untouched
        (wrapping "check existing repository"
          (query env (get_repository_by_external_id input.external_id)))
        Found
  found =
      Leaves-wrapping _ _ (query-Leaves env _ (λ db (o, _). o.stored) (λ db. found-Found _ db refl))

  -- An update of the repository keeps its id.
  same_id :
      (r repo : Repository) (w : World)
      → (upsert env wiring path input (some r) w).0 ≡ ok repo
      → repo.id ≡ r.id
  unfolding time_now execute statement wrapping pure ◌>>=◌
  same_id r repo w e = ground (arith, e)

  incremental-Leaves :
      (repo r : Repository)
      → repo.id ≡ r.id
      → Leaves
          (Stored c)
          (Spared c paths r.id)
          (process_existing env wiring path input repo (some r))
          (λ _. Stored c)
  unfolding get_files_by_repository_id process_incremental
  incremental-Leaves repo r same = Leaves-whole _ λ w s.
      let (elsewhere, relative) = rw (← same) at s.misses in
      let safe : (exists (λ f. is_abs f.path) (get_files_by_repository_id repo.id w.db) ≡ false)
          ⊎ Outside c repo.id w.db =
        elim relative [
          | inl each ↦ inl (exists-none repo.id w.db.files each)
          | inr outside ↦ inr outside
        ] in
      rw pushed
        (process_incremental_keeps_chunk env wiring c path repo input w safe s.owned elsewhere)

  process-Leaves :
      (existing : Option Repository)
      → Leaves
          (Stored c)
          (Found existing)
          (do
            repo ← upsert_repository_record env wiring path input existing
            process_existing env wiring path input repo existing)
          (λ _. Stored c)
  unfolding upsert_repository_record update_repository
  process-Leaves none =
      Leaves-bind _ _
        (Leaves-Keeps _
          (upsert-Keeps env wiring (Stored c) (stays_registered c) (λ r db m. m) path input none)
          (λ db m. m))
        λ repo.
          Leaves-whole _
            λ w m. (process_first-Keeps env wiring (Stored c) (Stored-Grows c) path repo).at w m
  process-Leaves (some r) =
      Leaves-bind _ _
        (Leaves-given (λ repo. repo.id ≡ r.id) _
          (upsert-Keeps env wiring (Spared c paths r.id) (registered c _ _) (updated c _ _) path
            input (some r))
          (λ w repo. same_id r repo w) (λ db s. s.owned.stored))
        (λ repo. Leaves-known _ _ (incremental-Leaves repo r))

  -- An incremental index run keeps the chunk.
  pub process_repository-Spared :
      (w : World) → Untouched w.db → Stored c (process_repository env wiring path input w).1.db
  unfolding process_repository
  process_repository-Spared = Leaves-end _ (Leaves-bind _ _ found process-Leaves) (λ _ db s. s)
