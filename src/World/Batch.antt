-- ===== src/World/Batch.antt =====
-- What a batch insert of internal/infra/psql leaves in the database.
use synthy.Prelude.{
  String, ◌≡◌, refl, ◌⊎◌, inl, inr, List, [], ◌∷◌, Option, none, some, Option-cases, ℕ,
}
use synthy.Exec.{Error, Result, ok, err, panic, wrap, pure, wrapping, ◌>>=◌, ◌>>◌}
use synthy.Db.{Db}
use synthy.World.{
  World, Env, insert_each, insert_batch, begin, in_tx, commit, rollback, transaction, statement,
  ticked,
}

abbrev and_then : Option Db → (Db → Option Db) → Option Db
and_then none f = none
and_then (some db) f = f db

-- The rows one after the other, unless one violates a key.
abbrev pub insert_all : {A : Type 0} → (A → Db → Option Db) → List A → Db → Option Db
insert_all insert [] db = some db
insert_all insert (x ∷ xs) db = and_then (insert x db) (λ next. insert_all insert xs next)

-- The database fails at some call, or a row violates a key.
abbrev pub Refused : {A : Type 0} → Env → (A → Db → Option Db) → List A → World → Type 0
Refused env insert xs w =
    ((t : ℕ) × (f : Error) × (env.db_fault t ≡ some f)) ⊎ (insert_all insert xs w.db ≡ none)

abbrev pub WholeOrNothing :
    {A : Type 0} → Env → (A → Db → Option Db) → List A → World → Result (Unit {0}) × World → Type 0
WholeOrNothing env insert xs w out =
    ((out.0 ≡ ok tt) × (insert_all insert xs w.db ≡ some out.1.db))
    ⊎ ((e : Error) × (out.0 ≡ err e) × (out.1.db ≡ w.db) × Refused env insert xs w)

module _ (env : Env) {A : Type 0} (context : String) (insert : A → Db → Option Db) where
  abbrev Each : List A → World → Result (Unit {0}) × World → Type 0
  Each xs w out =
      ((out.0 ≡ ok tt) × (insert_all insert xs w.db ≡ some out.1.db))
      ⊎ ((e : Error) × (out.0 ≡ err e) × Refused env insert xs w)

  insert_each-Each : (xs : List A) (w : World) → Each xs w (insert_each env context insert xs w)
  unfolding insert_each statement pure wrapping ◌>>=◌
  insert_each-Each [] w = inl (refl, refl)
  insert_each-Each (x ∷ xs) w = elim (Option-cases (env.db_fault w.tick)) [
    | inr (e, failed) ↦ rw failed (inr (wrap context e, refl, inl (w.tick, e, failed)))
    | inl fine ↦ elim (Option-cases (insert x w.db)) [
      | inl violated ↦ rw (fine, violated) (inr (_, refl, inr refl))
      | inr (next, inserted) ↦
          rw (fine, inserted) (insert_each-Each xs (record (ticked env w) { db = next }))
    ]
  ]

  committed :
      (xs : List A) (w v : World) (r : Result (Unit {0}))
      → Each xs w (r, v)
      → WholeOrNothing env insert xs w (
          let (s, t) = ((λ t. (r, t)) >> commit env) (record { world = v; before = some w.db }) in
          (s, rollback env t.world t.before))
  unfolding commit ◌>>=◌
  committed xs w v (ok tt) (inl (e, all)) = elim (Option-cases (env.db_fault v.tick)) [
    | inl fine ↦ rw fine (inl (refl, all))
    | inr (f, failed) ↦ rw failed (inr (f, refl, refl, inl (v.tick, f, failed)))
  ]
  committed xs w v (ok tt) (inr (e, q, _)) = cc
  committed xs w v (err f) (inl (e, all)) = cc
  committed xs w v (err f) (inr (e, q, refused)) = inr (f, refl, refl, refused)
  committed xs w v panic (inl (e, all)) = cc
  committed xs w v panic (inr (e, q, _)) = cc

  -- A batch either returns with every row inserted one after the other; or it fails with the database
  -- as it was, and then a call of the database fails, or a row violates a key.
  pub insert_batch_atomic :
      (xs : List A) (w : World)
      → WholeOrNothing env insert xs w (insert_batch env context insert xs w)
  unfolding insert_batch begin transaction in_tx pure wrapping ◌>>=◌
  insert_batch_atomic [] w = inl (refl, refl)
  insert_batch_atomic (x ∷ xs) w = elim (Option-cases (env.db_fault w.tick)) [
    | inr (e, failed) ↦
        rw failed (inr (wrap "begin transaction" e, refl, refl, inl (w.tick, e, failed)))
    | inl fine ↦
        let out = insert_each env context insert (x ∷ xs) (ticked env w) in
        rw fine
          (committed (x ∷ xs) (ticked env w) out.1 out.0 (insert_each-Each (x ∷ xs) (ticked env w)))
  ]
