-- ===== src/World/NewRow.antt =====
-- The rows that `new_row` makes.
use synthy.Prelude.{String, ℕ, ◌≡◌, refl, sym, ◌⊎◌, inl, inr, Option, none, some}
use synthy.Exec.{Reply, returned, failed, ok, pure, attempt, ◌>>=◌}
use synthy.Exec.Rules.{ok_injective}
use synthy.World.{World, Env, generate_id, time_now, new_row}

-- Without an id there is no row, and else the row has that id and some time.
pub new_row_made :
    (env : Env) {A : Type 0} (make : String → ℕ → A) (w : World) (o : Option A)
    → (new_row env make w).0 ≡ ok o
    → (o ≡ none) ⊎ ((id : String) × (now : ℕ) × (o ≡ some (make id now)))
unfolding new_row generate_id time_now pure attempt ◌>>=◌
new_row_made env {A} make w o = made (env.random_id w.tick) refl
  where
    made :
        (r : Reply String)
        → env.random_id w.tick ≡ r
        → (new_row env make w).0 ≡ ok o
        → (o ≡ none) ⊎ ((id : String) × (now : ℕ) × (o ≡ some (make id now)))
    made (failed e) q h = inl (sym (ok_injective (rw q at h)))
    made (returned id) q h = inr (id, _, sym (ok_injective (rw q at h)))
