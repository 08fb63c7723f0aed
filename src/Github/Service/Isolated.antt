-- ===== src/Github/Service/Isolated.antt =====
-- What the service does for one organization, and the connection and the messages of another.
use synthy.Prelude.{
  String, ℕ, ◌≡◌, refl, ◌∙◌, ap, arith, false, List, [], ◌∷◌, ◌++◌, inl, inr, Option, some, ◌==◌,
  keep, Option-cases,
}
use synthy.Exec.{wrapping}
use synthy.Model.{Installation}
use synthy.Db.{Db}
use synthy.Db.Rows.{upsert_installation, delete_by_organization}
use synthy.World.{World, Env, statement, execute}
use synthy.World.Safe.{Safe}
use synthy.Changes.{to_proto}
use synthy.Changes.Proto.{RepositoryEventMessage}
use synthy.Github.Client.{Client, Repo}
use synthy.Github.Client.Silent.{kept}
use synthy.Github.Service.{ConnectionView, disconnect, publish, publish_event, index_message}
use synthy.Github.Service.Steps.{Allows}
use synthy.Github.Service.Connection.{seen, seen-upsert, statement-cases, disconnect_refines}

abbrev pub messages_for : String → List RepositoryEventMessage → List RepositoryEventMessage
messages_for p queue = keep (λ m. p == m.organization_id) queue

keep-append_miss :
    (p : String) (m : RepositoryEventMessage) (queue : List RepositoryEventMessage)
    → (p == m.organization_id) ≡ false
    → messages_for p (queue ++ m ∷ []) ≡ messages_for p queue
unfolding keep
keep-append_miss p m [] other = rw other refl
keep-append_miss p m (x ∷ queue) other = ground (arith, keep-append_miss p m queue)

statement-queued :
    (env : Env) (f : Db → Option Db) (w : World) → (statement env f w).1.queued ≡ w.queued
unfolding statement
statement-queued env f w = elim (Option-cases (env.db_fault w.tick)) [
  | inr (e, bad) ↦ rw bad refl
  | inl fine ↦ elim (Option-cases (f w.db)) [
    | inl violated ↦ rw (fine, violated) refl
    | inr (db, done) ↦ rw (fine, done) refl
  ]
]

module _ (p : String) (x : ConnectionView) (q : List RepositoryEventMessage) where
  abbrev pub Isolated : World → Type 0
  Isolated w = (seen p w.db ≡ x) × (messages_for p w.queued ≡ q)

  pub same_kept : (v w : World) → kept v ≡ kept w → Isolated w → Isolated v
  same_kept v w e (sees, queues) =
      (ap (λ k. seen p k.0) e ∙ sees, ap (λ k. messages_for p k.5) e ∙ queues)

  module _ (env : Env) (client : Client) where
    module _ (o : String) (other : (p == o) ≡ false) where
      publish-Safe :
          (id : ℕ) (repo : Repo) → Safe Isolated (publish env client (index_message o id repo))
      unfolding publish publish_event wrapping to_proto
      publish-Safe id repo = record {
        holds = λ before (sees, queues). elim (Option-cases (env.event_fault before.tick)) [
          | inr (e, bad) ↦ rw bad (λ e. ground (arith, e), (sees, queues))
          | inl fine ↦
              rw fine
                (λ e. ground (arith, e), (sees, keep-append_miss p _ before.queued other ∙ queues))
        ];
      }

      upsert-Safe :
          (i : Installation)
          → i.organization_id ≡ o
          → Safe Isolated (statement env (upsert_installation i))
      upsert-Safe i mine = record {
        holds = λ before (sees, queues).
            let queue =
              ap (messages_for p) (statement-queued env (upsert_installation i) before) ∙ queues in
            elim (statement-cases env (upsert_installation i) before) [
              | inr (e, bad, same) ↦
                  (λ stop. ground (arith, bad, stop), (ap (seen p) same ∙ sees, queue))
              | inl (db, changed, done, after) ↦ (
                λ stop. ground (arith, done, stop),
                (
                  ap (seen p) after
                      ∙ rw (mine, other) at ((seen-upsert i p before.db db changed).0)
                      ∙ sees,
                  queue,
                ),
              )
            ];
      }

      disconnect-Isolated : Safe Isolated (disconnect env client o)
      unfolding disconnect execute
      disconnect-Isolated = record {
        holds = λ before (sees, queues).
            let queue =
              ap (messages_for p)
                (statement-queued env (λ db. some (delete_by_organization o db)) before)
              ∙ queues in
            elim (disconnect_refines env client o p before) [
              | inr (e, bad, same) ↦
                  (λ stop. ground (arith, bad, stop), (ap (seen p) same ∙ sees, queue))
              | inl (done, after) ↦
                  (λ stop. ground (arith, done, stop), (rw other at after ∙ sees, queue))
            ];
      }

      pub Isolated-Allows : Allows env client Isolated o
      Isolated-Allows = record {
        publishes = publish-Safe;
        upserts = upsert-Safe;
        deletes = disconnect-Isolated;
      }
