-- ===== src/Consumers/Steady.antt =====
-- What settling a delivery leaves of the database.
use synthy.Prelude.{ℕ, ◌≡◌, refl, sym, Option, none, some}
use mathlib.Core.Path.{subst}
use synthy.Exec.{Error}
use synthy.Db.{Db}
use synthy.World.{World, Env, Settlement, note, settle_delivery}
use synthy.World.Steady.{Steady, Steady-pure, Steady-attempt, Steady-bind}
use synthy.Consumers.{fail, ack}

module _ (env : Env) where
  note_db : (fault : Option Error) (s : Settlement) (w : World) → (note env fault s w).db ≡ w.db
  note_db none s w = refl
  note_db (some e) s w = refl

module _ (env : Env) {Q : Db → Type 0} where
  settle_delivery-Steady : (s : Settlement) → Steady Q (settle_delivery env s)
  unfolding settle_delivery
  settle_delivery-Steady s = record {
    at = λ w i. subst Q (sym (note_db env (env.delivery_fault w.tick) s w)) i;
  }

  pub fail-Steady : (tag : ℕ) → Steady Q (fail env tag)
  unfolding fail
  fail-Steady tag =
      Steady-bind _ _ (Steady-attempt _ (settle_delivery-Steady _)) (λ _. Steady-pure tt)

  pub ack-Steady : (tag : ℕ) → Steady Q (ack env tag)
  unfolding ack
  ack-Steady tag =
      Steady-bind _ _ (Steady-attempt _ (settle_delivery-Steady _)) (λ _. Steady-pure tt)
