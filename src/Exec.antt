-- ===== src/Exec.antt =====
-- Go functions that mutate state and return `(value, error)`. What was done before an error stays
-- done, so the state comes back beside the error too. `panic` is a nil dereference.
pub mod Rules
use synthy.Prelude.{String, Option, none, some, ℕ}

pub data Error : Type 0 where
  -- errors.New, and fmt.Errorf with no %w
  message : String → Error
  -- fmt.Errorf("context: %w", err)
  wrap : String → Error → Error
  -- fmt.Errorf("context: %w (text)", err, text)
  detailed : String → Error → String → Error
  -- ErrNotConfigured and ErrNotConnected, which callers test by errors.Is
  not_configured not_connected : Error
  -- APIError of internal/infra/github/client.go: the status and the message
  api_error : ℕ → String → Error

pub data Result {ℓ} (A : Type ℓ) : Type ℓ where
  ok : A → Result A
  err : Error → Result A
  panic : Result A

-- What a call outside the program answers; such a call does not panic.
pub data Reply {ℓ} (A : Type ℓ) : Type ℓ where
  returned : A → Reply A
  failed : Error → Reply A

abbrev pub of_reply {ℓ} : {A : Type ℓ} → Reply A → Result A
of_reply (returned a) = ok a
of_reply (failed e) = err e

abbrev pub Exec {ℓ} : Type ℓ → Type ℓ → Type ℓ
Exec S A = S → Result A × S

-- `if err != nil { return fmt.Errorf("context: %w", err) }`
abbrev wrap_result {ℓ} : {A : Type ℓ} → String → Result A → Result A
wrap_result context (ok a) = ok a
wrap_result context (err e) = err (wrap context e)
wrap_result context panic = panic

abbrev catch {ℓ} : {A : Type ℓ} → Result A → Result (Option A)
catch (ok a) = ok (some a)
catch (err e) = ok none
catch panic = panic

module _ {ℓ} {S A : Type ℓ} where
  unfoldable pub pure : A → Exec S A
  pure a s = (ok a, s)

  unfoldable pub raise : Error → Exec S A
  raise e s = (err e, s)

  unfoldable pub crash : Exec S A
  crash s = (panic, s)

  unfoldable pub lift : Result A → Exec S A
  lift r s = (r, s)

  unfoldable pub gets : (S → A) → Exec S A
  gets f s = (ok (f s), s)

  unfoldable pub wrapping : String → Exec S A → Exec S A
  wrapping context m s = let (r, t) = m s in (wrap_result context r, t)

  -- A call whose error the caller drops.
  unfoldable pub attempt : Exec S A → Exec S (Option A)
  attempt m s = let (r, t) = m s in (catch r, t)

  abbrev after_error : Exec S (Unit {ℓ}) → Result A → S → S
  after_error last (ok a) t = t
  after_error last (err e) t = (last t).1
  after_error last panic t = t

  -- A call after whose error the caller cleans up, by calls that return nothing.
  unfoldable pub on_error : Exec S A → Exec S (Unit {ℓ}) → Exec S A
  on_error m last s = let (r, t) = m s in (r, after_error last r t)

  -- `defer last()`, in front of the calls of `m`
  unfoldable pub deferring : Exec S A → Exec S (Unit {ℓ}) → Exec S A
  deferring m last s = let (r, t) = m s in (r, (last t).1)

module _ {ℓ} {S A B : Type ℓ} where
  abbrev continue : Result A → (A → Exec S B) → Exec S B
  continue (ok a) f s = f a s
  continue (err e) f s = (err e, s)
  continue panic f s = (panic, s)

  infixl 10 ◌>>=◌ ◌>>◌
  unfoldable pub ◌>>=◌ : Exec S A → (A → Exec S B) → Exec S B
  unfolding pure raise crash lift gets wrapping attempt
  ◌>>=◌ m f s = let (r, t) = m s in continue r f t

  abbrev pub ◌>>◌ : Exec S A → Exec S B → Exec S B
  m >> k = m >>= λ _. k
