-- ===== src/Ingestion/Tenant.antt =====
-- Whose index a repository event goes to.
use synthy.Prelude.{String, ℕ, ◌≡◌, refl, arith, false, inl, inr, none, nat_eq, ==_refl}
use synthy.Exec.{ok, pure, wrapping, ◌>>=◌}
use synthy.World.{World, Env, query}
use synthy.Vectors.{Wiring}
use synthy.Changes.{IngestionMessage}
use synthy.Github.Client.{Client}
use synthy.Github.Service.{connect, ConnectionView}
use synthy.Github.Service.Connection.{connect_refines}
use synthy.Ingestion.{organization_for}

-- After an organization has connected an installation, a repository event of this installation that
-- names no organization belongs to it, as long as the database has not changed and answers.
pub connect_then_organization_for :
    (env : Env) (client : Client) (wiring : Wiring) (o : String) (id : ℕ) (view : ConnectionView)
    (m : IngestionMessage) (w v : World)
    → (connect env client o id w).0 ≡ ok view
    → v.db ≡ (connect env client o id w).1.db
    → env.db_fault v.tick ≡ none
    → m.organization_id ≡ ""
    → m.installation_id ≡ id
    → nat_eq id 0 ≡ false
    → (organization_for env client wiring m v).0 ≡ ok o
unfolding organization_for query wrapping pure ◌>>=◌
connect_then_organization_for env client wiring o id view m w v done same fine unnamed named
      some_id =
    elim (connect_refines env client o o id w) [
      | inr (e, bad, kept) ↦ ground (arith, done, bad)
      | inl (seen, connected, number, sees, (i, found, mine)) ↦
          rw (unnamed, named, some_id, ==_refl "", fine, same, found, mine) refl
    ]
