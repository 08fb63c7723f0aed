-- ===== src/World/Steady.antt =====
-- A property of the database that a call keeps, also where it fails or panics.
use synthy.Prelude.{String, Bool, true, false, if◌then◌else◌}
use synthy.Exec.{
  Exec, Result, ok, err, panic, pure, crash, lift, attempt, ◌>>=◌, Error, raise, wrapping,
}
use synthy.Db.{Db}
use synthy.World.{World}
use synthy.World.Keeps.{Keeps}
use synthy.World.Safe.{Safe}
use synthy.World.Growth.{OnDb}

pub record Steady (I : Db → Type 0) {A : Type 0} (action : Exec World A) : Type 0 where
  pub at : (w : World) → I w.db → I (action w).1.db

module _ {I : Db → Type 0} {A : Type 0} where
  pub Steady-pure : (a : A) → Steady I (pure a)
  unfolding pure
  Steady-pure a = record { at = λ w i. i }

  pub Steady-crash : Steady I (crash {A = A})
  unfolding crash
  Steady-crash = record { at = λ w i. i }

  pub Steady-attempt : (action : Exec World A) → Steady I action → Steady I (attempt action)
  unfolding attempt
  Steady-attempt action s = record { at = λ w i. s.at w i }

  pub Steady-raise : (e : Error) → Steady I (raise {A = A} e)
  unfolding raise
  Steady-raise e = record { at = λ w i. i }

  pub Steady-wrapping :
      (context : String) (action : Exec World A)
      → Steady I action
      → Steady I (wrapping context action)
  unfolding wrapping
  Steady-wrapping context action s = record { at = λ w i. s.at w i }

  pub Steady-if :
      (test : Bool) (first second : Exec World A)
      → Steady I first
      → Steady I second
      → Steady I (if test then first else second)
  Steady-if true first second one two = one
  Steady-if false first second one two = two

  pub Keeps-Steady : (action : Exec World A) → Keeps (OnDb I) action → Steady I action
  Keeps-Steady action k = record { at = λ w i. k.at w i }

  pub Safe-Steady : (action : Exec World A) → Safe (OnDb I) action → Steady I action
  Safe-Steady action s = record { at = λ w i. (s.holds w i).1 }

module _ (I : Db → Type 0) {A B : Type 0} where
  continued :
      (next : A → Exec World B) (r : Result A) (w : World)
      → ((a : A) → Steady I (next a))
      → I w.db
      → I ((lift r >>= next) w).1.db
  unfolding ◌>>=◌
  continued next (ok a) w s i = (s a).at w i
  continued next (err e) w s i = i
  continued next panic w s i = i

module _ {I : Db → Type 0} {A B : Type 0} where
  pub Steady-bind :
      (first : Exec World A) (next : A → Exec World B)
      → Steady I first
      → ((a : A) → Steady I (next a))
      → Steady I (first >>= next)
  unfolding ◌>>=◌
  Steady-bind first next one rest = record {
    at = λ w i. continued I next (first w).0 (first w).1 rest (one.at w i);
  }
