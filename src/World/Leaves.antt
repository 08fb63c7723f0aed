-- ===== src/World/Leaves.antt =====
-- What an effectful call leaves in the database: the invariant `I` where it fails, and what is said
-- of its result where it returns. One rule for each way to build a call.
use synthy.Prelude.{◌≡◌, refl, String, Bool, true, false, if◌then◌else◌, Option-cases, inl, inr}
use synthy.Exec.{Exec, Error, Result, ok, err, panic, pure, raise, lift, wrapping, ◌>>=◌}
use synthy.Db.{Db}
use synthy.World.{World, Env, query}
use synthy.World.Keeps.{Keeps}
use synthy.World.Steady.{Steady}
use synthy.World.Growth.{OnDb}

abbrev pub Ends : {A : Type 0} → (Db → Type 0) → (A → Db → Type 0) → Result A → Db → Type 0
Ends I R (ok a) db = R a db
Ends I R (err e) db = I db
Ends I R panic db = I db

pub record Leaves (I P : Db → Type 0) {A : Type 0} (action : Exec World A) (R : A → Db → Type 0)
    : Type 0 where
  pub at : (w : World) → P w.db → Ends I R (action w).0 (action w).1.db

module _ (I : Db → Type 0) {A : Type 0} (R : A → Db → Type 0) where
  wrapped :
      (context : String) (r : Result A) (w : World)
      → Ends I R r w.db
      → Ends I R (wrapping context (lift r) w).0 w.db
  unfolding wrapping lift
  wrapped context (ok a) w e = e
  wrapped context (err f) w e = e
  wrapped context panic w e = e

  kept : (r : Result A) (db : Db) → ((a : A) → r ≡ ok a → R a db) → I db → Ends I R r db
  kept (ok a) db each i = each a refl
  kept (err e) db each i = i
  kept panic db each i = i

  ended : (r : Result A) (db : Db) → ((a : A) → R a db → I db) → Ends I R r db → I db
  ended (ok a) db weaken e = weaken a e
  ended (err f) db weaken e = e
  ended panic db weaken e = e

  followed :
      (M : A → Db → Type 0) (r : Result A) (db : Db)
      → ((a : A) → M a db → R a db)
      → Ends I M r db
      → Ends I R r db
  followed M (ok a) db weaken e = weaken a e
  followed M (err f) db weaken e = e
  followed M panic db weaken e = e

  continued :
      {B : Type 0} (M : B → Db → Type 0) (next : B → Exec World A) (r : Result B) (w : World)
      → ((b : B) → Leaves I (M b) (next b) R)
      → Ends I M r w.db
      → Ends I R ((lift r >>= next) w).0 ((lift r >>= next) w).1.db
  unfolding ◌>>=◌
  continued M next (ok a) w l e = (l a).at w e
  continued M next (err f) w l e = e
  continued M next panic w l e = e

module _ {I P : Db → Type 0} {A : Type 0} {R : A → Db → Type 0} where
  pub Leaves-pure : (a : A) → ((db : Db) → P db → R a db) → Leaves I P (pure a) R
  unfolding pure
  Leaves-pure a f = record { at = λ w p. f w.db p }

  pub Leaves-raise : (e : Error) → ((db : Db) → P db → I db) → Leaves I P (raise {A = A} e) R
  unfolding raise
  Leaves-raise e f = record { at = λ w p. f w.db p }

  pub Leaves-if :
      (test : Bool) (first second : Exec World A)
      → Leaves I P first R
      → Leaves I P second R
      → Leaves I P (if test then first else second) R
  Leaves-if true first second one two = one
  Leaves-if false first second one two = two

  pub Leaves-wrapping :
      (context : String) (action : Exec World A)
      → Leaves I P action R
      → Leaves I P (wrapping context action) R
  unfolding wrapping lift
  Leaves-wrapping context action l = record {
    at = λ w p. wrapped I R context (action w).0 (action w).1 (l.at w p);
  }

  -- Where every result implies the invariant, it holds in any case.
  pub Leaves-end :
      (action : Exec World A)
      → Leaves I P action R
      → ((a : A) (db : Db) → R a db → I db)
      → (w : World) → P w.db
      → I (action w).1.db
  Leaves-end action l weaken w p =
      ended I R (action w).0 (action w).1.db (λ a. weaken a _) (l.at w p)

  pub Leaves-after :
      {M : A → Db → Type 0} (action : Exec World A)
      → Leaves I P action M
      → ((a : A) (db : Db) → M a db → R a db)
      → Leaves I P action R
  Leaves-after {M} action l weaken = record {
    at = λ w p. followed I R M (action w).0 (action w).1.db (λ a. weaken a _) (l.at w p);
  }

  pub Leaves-known :
      (F : Type 0) (action : Exec World A)
      → (F → Leaves I P action R)
      → Leaves I (λ db. F × P db) action R
  Leaves-known F action l = record { at = λ w (f, p). (l f).at w p }

module _ {I P : Db → Type 0} {A : Type 0} where
  -- An invariant that the call keeps, with a fact about each result.
  pub Leaves-given :
      (F : A → Type 0) (action : Exec World A)
      → Keeps (OnDb P) action
      → ((w : World) (a : A) → (action w).0 ≡ ok a → F a)
      → ((db : Db) → P db → I db)
      → Leaves I P action (λ a db. F a × P db)
  Leaves-given F action k fact weaken = record {
    at = λ w p.
        kept I (λ a db. F a × P db) (action w).0 (action w).1.db (λ a e. (fact w a e, k.at w p))
          (weaken _ (k.at w p));
  }

  pub Leaves-Keeps :
      (action : Exec World A)
      → Keeps (OnDb P) action
      → ((db : Db) → P db → I db)
      → Leaves I P action (λ _. P)
  Leaves-Keeps action k weaken = record {
    at =
        λ w p. kept I (λ _. P) (action w).0 (action w).1.db (λ a e. k.at w p) (weaken _ (k.at w p));
  }

  pub Leaves-Steady :
      (action : Exec World A)
      → Steady P action
      → ((db : Db) → P db → I db)
      → Leaves I P action (λ _. P)
  Leaves-Steady action s weaken = record {
    at =
        λ w p. kept I (λ _. P) (action w).0 (action w).1.db (λ a e. s.at w p) (weaken _ (s.at w p));
  }

  -- The invariant holds in any case.
  pub Leaves-whole :
      (action : Exec World A)
      → ((w : World) → P w.db → I (action w).1.db)
      → Leaves I P action (λ _. I)
  Leaves-whole action f = record {
    at = λ w p. kept I (λ _. I) (action w).0 (action w).1.db (λ a e. f w p) (f w p);
  }

  pub Leaves-bind :
      {B : Type 0} {M : A → Db → Type 0} {R : B → Db → Type 0} (first : Exec World A)
      (next : A → Exec World B)
      → Leaves I P first M
      → ((a : A) → Leaves I (M a) (next a) R)
      → Leaves I P (first >>= next) R
  unfolding ◌>>=◌
  Leaves-bind {M} {R} first next l rest = record {
    at = λ w p. continued I R M next (first w).0 (first w).1 rest (l.at w p);
  }

module _ (env : Env) {I P : Db → Type 0} {A : Type 0} {R : A → Db → Type 0} where
  -- What is read says something of the database that it is read from.
  pub query-Leaves :
      (f : Db → A)
      → ((db : Db) → P db → I db)
      → ((db : Db) → P db → R (f db) db)
      → Leaves I P (query env f) R
  unfolding query
  query-Leaves f weaken says = record {
    at = λ w p. elim (Option-cases (env.db_fault w.tick)) [
      | inl fine ↦ rw fine (says w.db p)
      | inr (e, failed) ↦ rw failed (weaken w.db p)
    ];
  }
