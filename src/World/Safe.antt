-- ===== src/World/Safe.antt =====
-- Calls that do not panic and keep a property of the world, one rule for each way to build them.
use synthy.Prelude.{◌≡◌, ◌≢◌, refl, arith, String, Bool, true, false, if◌then◌else◌}
use synthy.Exec.{Exec, Error, Result, ok, err, panic, pure, raise, lift, wrapping, ◌>>=◌}
use synthy.World.{World}
use synthy.World.Keeps.{Keeps, aside}

pub record Safe (P : World → Type 0) {A : Type 0} (action : Exec World A) : Type 0 where
  pub holds : (before : World) → P before → ((action before).0 ≢ panic) × P (action before).1

module _ {P : World → Type 0} {A : Type 0} where
  pub Safe-pure : (value : A) → Safe P (pure value)
  unfolding pure
  Safe-pure value = record { holds = λ before p. (λ e. ground (arith, e), p) }

  pub Safe-raise : (error : Error) → Safe P (raise {A = A} error)
  unfolding raise
  Safe-raise error = record { holds = λ before p. (λ e. ground (arith, e), p) }

  pub Safe-if :
      (test : Bool) (first second : Exec World A)
      → Safe P first
      → Safe P second
      → Safe P (if test then first else second)
  Safe-if true first second one two = one
  Safe-if false first second one two = two

  pub Safe-wrapping :
      (context : String) (action : Exec World A) → Safe P action → Safe P (wrapping context action)
  unfolding wrapping
  Safe-wrapping context action safe = record {
    holds = λ before p. let (calm, after) = safe.holds before p in (ground (arith, calm), after);
  }

  -- What indexing has nothing to do with, an index run keeps.
  pub Keeps-Safe :
      {R : World → Type 0} (action : Exec World A)
      → ((v w : World) → aside v ≡ aside w → P w → P v)
      → Keeps R action
      → Safe P action
  Keeps-Safe action only k = record {
    holds = λ before p. (k.calm before, only _ before (k.apart before) p);
  }

module _ {A B : Type 0} {P : World → Type 0} (next : A → Exec World B) (v : World) where
  continue-Safe :
      (r : Result A)
      → ((value : A) → Safe P (next value))
      → r ≢ panic
      → P v
      → (((lift r >>= next) v).0 ≢ panic) × P ((lift r >>= next) v).1
  unfolding ◌>>=◌
  continue-Safe (ok a) rest calm p = (rest a).holds v p
  continue-Safe (err e) rest calm p = (λ e. ground (arith, e), p)
  continue-Safe panic rest calm p = (λ e. calm refl, p)

module _ {A B : Type 0} {P : World → Type 0} where
  pub Safe-bind :
      (first : Exec World A) (next : A → Exec World B)
      → Safe P first
      → ((value : A) → Safe P (next value))
      → Safe P (first >>= next)
  unfolding ◌>>=◌
  Safe-bind first next one rest = record {
    holds = λ before p.
        let (calm, after) = one.holds before p in
        continue-Safe next (first before).1 (first before).0 rest calm after;
  }
