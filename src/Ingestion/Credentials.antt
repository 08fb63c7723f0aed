-- ===== src/Ingestion/Credentials.antt =====
-- The token and the organization of a repository event.
use synthy.Prelude.{ℕ, ◌≡◌, refl, arith, Option, none, some}
use synthy.Model.{Installation}
use synthy.Db.{Db}
use synthy.World.{World, Env, query}
use synthy.World.Keeps.{aside}
use synthy.World.Safe.{Safe, Safe-pure, Safe-raise, Safe-if, Safe-wrapping, Safe-bind}
use synthy.Vectors.{Wiring}
use synthy.Changes.{IngestionMessage}
use synthy.Pipeline.Run.{Lives}
use synthy.Github.Client.{Client, installation_token, mint}
use synthy.Ingestion.{token_for, connected, organization_for}

abbrev pub Anything : Db → Type 0
Anything db = Unit

pub anything : Lives Anything
anything = record {
  grows = record {
    others = record {
      file = λ r. record { at = λ db db' e q. tt };
      symbol = λ r. record { at = λ db db' e q. tt };
      call_edge = λ r. record { at = λ db db' e q. tt };
      import_edge = λ r. record { at = λ db db' e q. tt };
    };
    chunk = λ r. record { at = λ db db' e q. tt };
  };
  survives = record {
    registers = λ r. record { at = λ db db' e q. tt };
    updates = λ r db q. tt;
    deletes = λ p db q. tt;
  };
}

-- `P` depends on the database and on the parts of the world that indexing leaves alone.
module _ (env : Env) (client : Client) (wiring : Wiring) (P : World → Type 0)
    (only : (v w : World) → aside v ≡ aside w → v.db ≡ w.db → P w → P v) where
  mint-Safe : (id : ℕ) → Safe P (mint env client id)
  unfolding mint
  mint-Safe id = record { holds = λ before p. (ground arith, only _ before refl refl p) }

  installation_token-Safe : (id : ℕ) → Safe P (installation_token env client id)
  unfolding installation_token
  installation_token-Safe id = Safe-if _ _ _ (mint-Safe id) (Safe-raise _)

  pub token_for-Safe : (m : IngestionMessage) → Safe P (token_for env client wiring m)
  unfolding token_for
  token_for-Safe m = Safe-if _ _ _ (Safe-pure _) (Safe-wrapping _ _ (installation_token-Safe _))

  connected-Safe : (found : Option Installation) → Safe P (connected env client wiring found)
  connected-Safe none = Safe-raise _
  connected-Safe (some i) = Safe-pure _

  asked-Safe : {A : Type 0} (f : Db → A) → Safe P (query env f)
  unfolding query
  asked-Safe f = record { holds = λ before p. (ground arith, only _ before refl refl p) }

  pub organization_for-Safe : (m : IngestionMessage) → Safe P (organization_for env client wiring m)
  unfolding organization_for
  organization_for-Safe m =
      Safe-if _ _ _ (Safe-bind _ _ (Safe-wrapping _ _ (asked-Safe _)) connected-Safe) (Safe-pure _)
