-- ===== src/World/Growth.antt =====
-- What inserting rows keeps, for a property `Q` of the database that no insertion of the indexing
-- code breaks.
use synthy.Prelude.{
  All, All-each, String, ℕ, ◌≡◌, refl, List, [], ◌∷◌, Option, none, some, arith, ◌∙◌, ◌≢◌, inl, inr,
  Option-cases,
}
use mathlib.Core.Path.{subst}
use mathlib.Core.Option.{some-injective}
use synthy.Exec.{Exec, Error, Result, ok, err, panic, wrapping, ◌>>=◌, ◌>>◌}
use synthy.World.Keeps.{Keeps, Keeps-pure, Keeps-bind, Keeps-wrapping, keeps_rules, aside}
use synthy.Model.{File, Symbol, CodeChunk, CallEdge, ImportEdge}
use synthy.Db.{Db, insert_file, insert_symbol, insert_chunk, insert_call_edge, insert_import_edge}
use synthy.World.{
  World, Env, VectorRequest, EmbeddingRequest, generate_id, time_now, read_file, parse_file,
  packages_load, query, statement, execute, begin, in_tx, commit, rollback, transaction,
  Transaction, insert_each, insert_batch, vector_call, publish_embedding, new_row, settle, stamped,
}

abbrev pub OnDb : (Db → Type 0) → World → Type 0
OnDb Q w = Q w.db

-- `f` keeps `Q` where it succeeds.
pub record Inserts (Q : Db → Type 0) (f : Db → Option Db) : Type 0 where
  pub at : (db db' : Db) → f db ≡ some db' → Q db → Q db'

-- No insertion breaks `Q`, but for that of a chunk, which may.
pub record Extends (Q : Db → Type 0) : Type 0 where
  pub file : (r : File) → Inserts Q (insert_file r)
  pub symbol : (r : Symbol) → Inserts Q (insert_symbol r)
  pub call_edge : (r : CallEdge) → Inserts Q (insert_call_edge r)
  pub import_edge : (r : ImportEdge) → Inserts Q (insert_import_edge r)

pub record Grows (Q : Db → Type 0) : Type 0 where
  pub others : Extends Q
  pub chunk : (r : CodeChunk) → Inserts Q (insert_chunk r)

module _ (env : Env) (Q : Db → Type 0) where
  pub generate_id-Keeps : Keeps (OnDb Q) (generate_id env)
  unfolding generate_id
  generate_id-Keeps = record { at = λ w h. h; calm = λ w. ground arith; apart = λ w. refl }

  pub time_now-Keeps : Keeps (OnDb Q) (time_now env)
  unfolding time_now
  time_now-Keeps = record { at = λ w h. h; calm = λ w. ground arith; apart = λ w. refl }

  pub read_file-Keeps : (path : String) → Keeps (OnDb Q) (read_file env path)
  unfolding read_file
  read_file-Keeps path = record { at = λ w h. h; calm = λ w. ground arith; apart = λ w. refl }

  pub parse_file-Keeps : (path : String) → Keeps (OnDb Q) (parse_file env path)
  unfolding parse_file
  parse_file-Keeps path = record { at = λ w h. h; calm = λ w. ground arith; apart = λ w. refl }

  pub packages_load-Keeps : (path : String) → Keeps (OnDb Q) (packages_load env path)
  unfolding packages_load
  packages_load-Keeps path = record { at = λ w h. h; calm = λ w. ground arith; apart = λ w. refl }

  pub query-Keeps : {A : Type 0} (f : Db → A) → Keeps (OnDb Q) (query env f)
  unfolding query
  query-Keeps f = record { at = λ w h. h; calm = λ w. ground arith; apart = λ w. refl }

  pub begin-Keeps : Keeps (OnDb Q) (begin env)
  unfolding begin
  begin-Keeps = record { at = λ w h. h; calm = λ w. ground arith; apart = λ w. refl }

  pub vector_call-Keeps : (r : VectorRequest) → Keeps (OnDb Q) (vector_call env r)
  unfolding vector_call
  vector_call-Keeps r = record {
    at = λ w h. ground arith;
    calm = λ w. ground arith;
    apart = λ w. ground arith;
  }

  pub publish_embedding-Keeps : (r : EmbeddingRequest) → Keeps (OnDb Q) (publish_embedding env r)
  unfolding publish_embedding
  publish_embedding-Keeps r = record {
    at = λ w h. ground arith;
    calm = λ w. ground arith;
    apart = λ w. ground arith;
  }

  settle_at :
      (f : Db → Option Db) (w : World) (fault : Option Error) (result : Option Db)
      → f w.db ≡ result
      → Inserts Q f
      → Q w.db
      → Q (settle env fault result w).1.db
  settle_at f w (some e) result eq ins h = h
  settle_at f w none none eq ins h = h
  settle_at f w none (some db) eq ins h = ins.at w.db db eq h

  pub statement-Keeps : (f : Db → Option Db) → Inserts Q f → Keeps (OnDb Q) (statement env f)
  unfolding statement
  statement-Keeps f ins = record {
    at = λ w h. settle_at f w (env.db_fault w.tick) (f w.db) refl ins h;
    calm = λ w. ground arith;
    apart = λ w. ground arith;
  }

  pub execute-Keeps : (f : Db → Db) → ((db : Db) → Q db → Q (f db)) → Keeps (OnDb Q) (execute env f)
  unfolding execute
  execute-Keeps f keep_f =
      statement-Keeps (λ db. some (f db))
        (record { at = λ db db' eq h. subst Q (some-injective _ _ eq) (keep_f db h) })

  module _ (w v : World) where
    -- what a transaction that began in `w` comes to, where its body has ended in `v`
    abbrev ending : Result (Unit {0}) → Result (Unit {0}) × Transaction
    ending r = ((λ t. (r, t)) >> commit env) (record { world = v; before = some w.db })

    abbrev rolled_back : Result (Unit {0}) → World
    rolled_back r = rollback env (ending r).1.world (ending r).1.before

    ending_at : (r : Result (Unit {0})) → Q w.db → Q v.db → Q (rolled_back r).db
    unfolding commit ◌>>=◌
    ending_at (ok a) before after = elim (Option-cases (env.db_fault v.tick)) [
      | inl fine ↦ rw fine after
      | inr (e, failed) ↦ rw failed before
    ]
    ending_at (err e) before after = before
    ending_at panic before after = before

    ending_calm : (r : Result (Unit {0})) → r ≢ panic → (ending r).0 ≢ panic
    unfolding commit ◌>>=◌
    ending_calm (ok a) calm = elim (Option-cases (env.db_fault v.tick)) [
      | inl fine ↦ rw fine (ground arith)
      | inr (e, failed) ↦ rw failed (ground arith)
    ]
    ending_calm (err e) calm = calm
    ending_calm panic calm = calm

    ending_apart : (r : Result (Unit {0})) → aside (rolled_back r) ≡ aside v
    unfolding commit ◌>>=◌
    ending_apart (ok a) = elim (Option-cases (env.db_fault v.tick)) [
      | inl fine ↦ rw fine refl
      | inr (e, failed) ↦ rw failed refl
    ]
    ending_apart (err e) = refl
    ending_apart panic = refl

  pub transaction-Keeps :
      (body : Exec World (Unit {0}))
      → Keeps (OnDb Q) body
      → Keeps (OnDb Q) (transaction env (do in_tx env body; commit env))
  unfolding transaction in_tx ◌>>=◌
  transaction-Keeps body k = record {
    at = λ w h. ending_at w (body w).1 (body w).0 h (k.at w h);
    calm = λ w. ending_calm w (body w).1 (body w).0 (k.calm w);
    apart = λ w. ending_apart w (body w).1 (body w).0 ∙ k.apart w;
  }

  insert_each-Keeps :
      {A : Type 0} (context : String) (insert : A → Db → Option Db) (xs : List A)
      → All (λ a. Inserts Q (insert a)) xs
      → Keeps (OnDb Q) (insert_each env context insert xs)
  unfolding insert_each
  insert_each-Keeps context insert [] ins = Keeps-pure tt
  insert_each-Keeps context insert (x ∷ xs) ins =
      Keeps-bind (wrapping context (statement env (insert x))) _
        (Keeps-wrapping context _ (statement-Keeps (insert x) ins.0))
        (λ _. insert_each-Keeps context insert xs ins.1)

  -- A batch of rows none of which breaks the property.
  pub insert_listed-Keeps :
      {A : Type 0} (context : String) (insert : A → Db → Option Db) (xs : List A)
      → All (λ a. Inserts Q (insert a)) xs
      → Keeps (OnDb Q) (insert_batch env context insert xs)
  unfolding insert_batch
  insert_listed-Keeps context insert [] ins = Keeps-pure tt
  insert_listed-Keeps context insert (x ∷ xs) ins =
      Keeps-bind _ _ (Keeps-wrapping _ _ begin-Keeps)
        (λ _. transaction-Keeps _ (insert_each-Keeps context insert (x ∷ xs) ins))

  pub insert_batch-Keeps :
      {A : Type 0} (context : String) (insert : A → Db → Option Db)
      → ((a : A) → Inserts Q (insert a))
      → (xs : List A) → Keeps (OnDb Q) (insert_batch env context insert xs)
  insert_batch-Keeps context insert ins xs =
      insert_listed-Keeps context insert xs (All-each _ ins xs)

  stamped-Keeps :
      {A : Type 0} (make : String → ℕ → A) (id : Option String)
      → Keeps (OnDb Q) (stamped env make id)
  stamped-Keeps make none = Keeps-pure none
  stamped-Keeps make (some id) = search (keeps_rules, time_now-Keeps)

  pub new_row-Keeps : {A : Type 0} (make : String → ℕ → A) → Keeps (OnDb Q) (new_row env make)
  unfolding new_row
  new_row-Keeps make = search (keeps_rules, generate_id-Keeps, stamped-Keeps make)

pub ruleset growth_rules = (
  keeps_rules, generate_id-Keeps, time_now-Keeps, read_file-Keeps, parse_file-Keeps,
  packages_load-Keeps, query-Keeps, vector_call-Keeps, publish_embedding-Keeps, new_row-Keeps,
)
