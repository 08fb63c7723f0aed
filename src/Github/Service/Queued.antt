-- ===== src/Github/Service/Queued.antt =====
-- The messages that a request to index an organization's repositories puts on the queue.
use synthy.Prelude.{
  String, ℕ, suc, ◌+◌, ◌<◌, ◌≡◌, refl, sym, ◌∙◌, ap, arith, List, [], ◌∷◌, ◌++◌, map, take, length,
  ◌⊎◌, inl, inr, some, Bool-cases, Option-cases, append-nil, append_assoc,
}
use mathlib.Core.Path.{subst}
use synthy.Exec.{Error, Result, ok, err, pure, raise, wrapping, ◌>>=◌}
use synthy.Exec.Rules.{Result-cases}
use synthy.Model.{Installation}
use synthy.Db.Rows.{get_by_organization}
use synthy.World.{World, Env, query, ticked}
use synthy.Changes.{to_proto}
use synthy.Changes.Proto.{RepositoryEventMessage}
use synthy.Github.Client.{Client, Repo, list_repositories as client_list_repositories}
use synthy.Github.Client.Silent.{kept, list_repositories-Safe}
use synthy.Github.Service.{
  index_message, publish, publish_event, publish_each, require_installation,
  index_connected_repositories,
}

-- the message for a repository
abbrev pub asked : String → ℕ → Repo → RepositoryEventMessage
asked organization id repo = to_proto (index_message organization id repo)

-- All repositories were asked for, in order; or the queue failed at one of them, and exactly those in
-- front of it were.
abbrev pub Publishes :
    String → ℕ → ℕ → List Repo → List RepositoryEventMessage → Result ℕ × World → Type 0
Publishes o id n repos queue out =
    ((out.0 ≡ ok (n + length repos)) × (out.1.queued ≡ queue ++ map (asked o id) repos))
    ⊎ ((k : ℕ) × (e : Error) × (k < length repos)
        × (out.0 ≡ err e)
        × (out.1.queued ≡ queue ++ map (asked o id) (take k repos)))

module _ (env : Env) (client : Client) (o : String) (id : ℕ) where
  later :
      (n : ℕ) (repo : Repo) (repos : List Repo) (queue : List RepositoryEventMessage)
      (out : Result ℕ × World)
      → Publishes o id (suc n) repos (queue ++ asked o id repo ∷ []) out
      → Publishes o id n (repo ∷ repos) queue out
  later n repo repos queue out (inl (done, all)) =
      inl (done ∙ ap ok (omega arith), all ∙ append_assoc queue (asked o id repo ∷ []) _)
  later n repo repos queue out (inr (k, e, below, failed, front)) =
      inr (suc k, e, omega arith, failed, front ∙ append_assoc queue (asked o id repo ∷ []) _)

  publish_each-Publishes :
      (repos : List Repo) (n : ℕ) (w : World)
      → Publishes o id n repos w.queued (publish_each env client o id n repos w)
  unfolding publish_each publish publish_event wrapping pure ◌>>=◌
  publish_each-Publishes [] n w = inl (ap ok (omega arith), sym (append-nil w.queued))
  publish_each-Publishes (repo ∷ repos) n w = elim (Option-cases (env.event_fault w.tick)) [
    | inr (e, bad) ↦ rw bad (inr (0, _, omega arith, refl, sym (append-nil w.queued)))
    | inl fine ↦
        let after = record w { tick = suc w.tick; queued = w.queued ++ asked o id repo ∷ [] } in
        rw fine (
          later n repo repos w.queued (publish_each env client o id (suc n) repos after)
            (publish_each-Publishes repos (suc n) after))
  ]

-- A request for an index: the repositories of the organization's installation are listed, and
-- published; or none is.
abbrev pub IndexRequested : Env → Client → String → World → Result ℕ × World → Type 0
IndexRequested env client o w out =
    ((i : Installation) × (repos : List Repo) × (get_by_organization o w.db ≡ some i)
      × ((client_list_repositories env client i.installation_id (ticked env w)).0 ≡ ok repos)
      × Publishes o i.installation_id 0 repos w.queued out)
    ⊎ ((e : Error) × (out.0 ≡ err e) × (out.1.queued ≡ w.queued))

module _ (env : Env) (client : Client) (o : String) (w : World) where
  pub require_installation-cases :
      ((i : Installation) × (get_by_organization o w.db ≡ some i)
        × (require_installation env client o w ≡ (ok i, ticked env w)))
      ⊎ ((e : Error) × ((require_installation env client o w).0 ≡ err e)
          × (kept (require_installation env client o w).1 ≡ kept w))
  unfolding require_installation query pure raise ◌>>=◌
  require_installation-cases = elim (Bool-cases client.ok) [
    | inr off ↦ rw off (inr (_, refl, refl))
    | inl on ↦ elim (Option-cases (env.db_fault w.tick)) [
      | inr (e, bad) ↦ rw (on, bad) (inr (_, refl, refl))
      | inl fine ↦ elim (Option-cases (get_by_organization o w.db)) [
        | inl nothing ↦ rw (on, fine, nothing) (inr (_, refl, refl))
        | inr (i, found) ↦ rw (on, fine, found) (inl (i, refl, refl))
      ]
    ]
  ]

  -- Asking for an index of an organization's repositories either lists the repositories of the
  -- installation in the organization's row, and queues one message for each of them in order, or for
  -- those in front of the one where the queue fails; or it fails and queues nothing.
  pub index_connected_repositories-Publishes :
      IndexRequested env client o w (index_connected_repositories env client o w)
  unfolding index_connected_repositories ◌>>=◌
  index_connected_repositories-Publishes = elim require_installation-cases [
    | inr (e, failed, same) ↦ rw failed (inr (e, refl, ap (λ k. k.5) same))
    | inl (i, found, required) ↦
        let (calm, same) =
          (list_repositories-Safe env (λ v. v.queued ≡ w.queued) (λ u v e q. ap (λ k. k.5) e ∙ q)
              client i.installation_id).holds
            (ticked env w) refl in
        elim (Result-cases _ calm) [
          | inl (repos, listed) ↦
              rw (required, listed)
                (let after =
                    (client_list_repositories env client i.installation_id (ticked env w)).1 in
                  inl (
                    i,
                    repos,
                    found,
                    listed,
                    subst
                        (λ queue.
                          Publishes o i.installation_id 0 repos queue
                            (publish_each env client o i.installation_id 0 repos after))
                        same (publish_each-Publishes env client o i.installation_id repos 0 after),
                  ))
          | inr (e, failed) ↦ rw (required, failed) (inr (e, refl, same))
        ]
  ]
