-- ===== src/Exec/Rules.antt =====
-- How a sequence of effectful steps returns.
use synthy.Prelude.{◌≢◌, ◌≡◌, refl, arith, ◌⊎◌, inl, inr}
use synthy.Exec.{Exec, Result, ok, err, panic, lift, ◌>>=◌, Reply, returned, failed, Error}

pub ok_injective {ℓ} : {A : Type ℓ} {a b : A} → ok a ≡ ok b → a ≡ b
ok_injective e = ground (arith, e)

module _ {ℓ} {S A B : Type ℓ} where
  continue-eq-ok :
      (r : Result A) (f : A → Exec S B) (s : S) {b : B}
      → ((lift r >>= f) s).0 ≡ ok b
      → (a : A) × (r ≡ ok a) × ((f a s).0 ≡ ok b)
  unfolding ◌>>=◌
  continue-eq-ok (ok a) f s h = (a, refl, h)
  continue-eq-ok (err e) f s h = cc
  continue-eq-ok panic f s h = cc

  -- A sequence that returns has returned from its first part.
  pub >>=-eq-ok :
      (m : Exec S A) (f : A → Exec S B) (s : S) {b : B}
      → ((m >>= f) s).0 ≡ ok b
      → (a : A) × ((m s).0 ≡ ok a) × ((f a (m s).1).0 ≡ ok b)
  unfolding ◌>>=◌
  >>=-eq-ok m f s h = continue-eq-ok (m s).0 f (m s).1 h

pub Reply-cases {ℓ} :
    {A : Type ℓ} (r : Reply A) → ((a : A) × (r ≡ returned a)) ⊎ ((e : Error) × (r ≡ failed e))
Reply-cases (returned a) = inl (a, refl)
Reply-cases (failed e) = inr (e, refl)

pub Result-cases {ℓ} :
    {A : Type ℓ} (r : Result A) → r ≢ panic → ((a : A) × (r ≡ ok a)) ⊎ ((e : Error) × (r ≡ err e))
Result-cases (ok a) calm = inl (a, refl)
Result-cases (err e) calm = inr (e, refl)
Result-cases panic calm = absurd (calm refl)
