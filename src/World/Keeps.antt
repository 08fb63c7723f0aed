-- ===== src/World/Keeps.antt =====
-- Invariants of effectful code, one rule for each way to build it.
use synthy.Prelude.{◌≡◌, ◌≢◌, refl, ◌∙◌, arith, String, ℕ, List, Bool, true, false, if◌then◌else◌}
use synthy.Exec.{Exec, Error, Result, ok, err, panic, pure, raise, lift, wrapping, attempt, ◌>>=◌}
use synthy.Changes.Proto.{RepositoryEventMessage}
use synthy.World.{World, Settlement}

-- The parts of the world that indexing has nothing to do with.
abbrev pub aside : World → List Settlement × List String × List RepositoryEventMessage × List ℕ
aside w = (w.settled, w.clones, w.queued, w.clients)

-- The invariant holds after the action if it held before, also where the action fails; the action
-- does not panic, and leaves the other parts of the world alone.
pub record Keeps (P : World → Type 0) {A : Type 0} (action : Exec World A) : Type 0 where
  pub at : (before : World) → P before → P (action before).1
  pub calm : (before : World) → (action before).0 ≢ panic
  pub apart : (before : World) → aside (action before).1 ≡ aside before

module _ {P : World → Type 0} {A : Type 0} where
  pub Keeps-if :
      (test : Bool) (first second : Exec World A)
      → Keeps P first
      → Keeps P second
      → Keeps P (if test then first else second)
  Keeps-if true first second one two = one
  Keeps-if false first second one two = two

  pub Keeps-wrapping :
      (context : String) (action : Exec World A)
      → Keeps P action
      → Keeps P (wrapping context action)
  unfolding wrapping
  Keeps-wrapping context action k = record {
    at = λ before p. k.at before p;
    calm = λ before. ground (arith, k.calm before);
    apart = λ before. k.apart before;
  }

  pub Keeps-attempt : (action : Exec World A) → Keeps P action → Keeps P (attempt action)
  unfolding attempt
  Keeps-attempt action k = record {
    at = λ before p. k.at before p;
    calm = λ before. ground (arith, k.calm before);
    apart = λ before. k.apart before;
  }

  pub Keeps-lift : (result : Result A) → result ≢ panic → Keeps P (lift result)
  unfolding lift
  Keeps-lift result calm = record {
    at = λ before p. p;
    calm = λ before. calm;
    apart = λ before. refl;
  }

  pub Keeps-raise : (error : Error) → Keeps P (raise {A = A} error)
  unfolding raise
  Keeps-raise error = record {
    at = λ before p. p;
    calm = λ before. ground arith;
    apart = λ before. refl;
  }

  pub Keeps-pure : (value : A) → Keeps P (pure value)
  unfolding pure
  Keeps-pure value = record {
    at = λ before p. p;
    calm = λ before. ground arith;
    apart = λ before. refl;
  }

module _ {A B : Type 0} {P : World → Type 0} (next : A → Exec World B) (v : World) where
  continue_at :
      (r : Result A) → ((value : A) → Keeps P (next value)) → P v → P ((lift r >>= next) v).1
  unfolding ◌>>=◌
  continue_at (ok a) k p = (k a).at v p
  continue_at (err e) k p = p
  continue_at panic k p = p

  continue_calm :
      (r : Result A)
      → ((value : A) → Keeps P (next value))
      → r ≢ panic
      → ((lift r >>= next) v).0 ≢ panic
  unfolding ◌>>=◌
  continue_calm (ok a) k calm = (k a).calm v
  continue_calm (err e) k calm = ground arith
  continue_calm panic k calm = ground (arith, calm refl)

  continue_apart :
      (r : Result A)
      → ((value : A) → Keeps P (next value))
      → aside ((lift r >>= next) v).1 ≡ aside v
  unfolding ◌>>=◌
  continue_apart (ok a) k = (k a).apart v
  continue_apart (err e) k = refl
  continue_apart panic k = refl

module _ {A B : Type 0} {P : World → Type 0} where
  pub Keeps-bind :
      (first : Exec World A) (next : A → Exec World B)
      → Keeps P first
      → ((value : A) → Keeps P (next value))
      → Keeps P (first >>= next)
  unfolding ◌>>=◌
  Keeps-bind first next one rest = record {
    at = λ before p. continue_at next (first before).1 (first before).0 rest (one.at before p);
    calm = λ before. continue_calm next (first before).1 (first before).0 rest (one.calm before);
    apart = λ before. continue_apart next (first before).1 (first before).0 rest ∙ one.apart before;
  }

module _ {A B : Type 0} {P R : World → Type 0} where
  -- The first part keeps `P`, and the rest needs only what `P` implies.
  pub Keeps-weaken :
      (first : Exec World A) (next : A → Exec World B)
      → Keeps P first
      → ((w : World) → P w → R w)
      → ((value : A) → Keeps R (next value))
      → (w : World) → P w
      → R ((first >>= next) w).1
  unfolding ◌>>=◌
  Keeps-weaken first next one weaken rest w p =
      continue_at next (first w).1 (first w).0 rest (weaken (first w).1 (one.at w p))

pub ruleset keeps_rules =
    (Keeps-pure, Keeps-raise, Keeps-wrapping, Keeps-attempt, Keeps-if, Keeps-bind)
