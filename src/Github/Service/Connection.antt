-- ===== src/Github/Service/Connection.antt =====
-- The connection of organizations to installations.
use synthy.Prelude.{
  String, ℕ, ◌≡◌, refl, ◌∙◌, ap, ◌⊎◌, inl, inr, Option, none, some, ◌==◌, Bool-cases, Option-cases,
  suc, if◌then◌else◌, ==_iff, ==_refl,
}
use synthy.Exec.{Error, Result, ok, err, pure, raise, ◌>>=◌, ◌>>◌}
use synthy.Exec.Rules.{Reply-cases}
use synthy.Model.{Installation}
use synthy.Db.{Db}
use synthy.Db.Rows.{
  get_by_organization, get_by_installation_id, upsert_installation, delete_by_organization,
}
use synthy.Db.Installations.{upsert-Stores, SameConnection, find-keep_own, find-keep_other}
use synthy.World.{
  World, Env, statement, time_now, ApiReply, ApiFailure, returned_api, failed_api, execute,
}
use synthy.Github.Client.{Client, get_installation_account, call_installation}
use synthy.Github.Service.{
  connect, disconnect, ConnectionView, view_of, new_installation_id, id_prefix,
}

-- A statement that returns has changed the database by its function, and one that fails has left it.
pub statement-cases :
    (env : Env) (f : Db → Option Db) (w : World)
    → ((db : Db) × (f w.db ≡ some db)
        × ((statement env f w).0 ≡ ok tt)
        × ((statement env f w).1.db ≡ db))
      ⊎ ((e : Error) × ((statement env f w).0 ≡ err e) × ((statement env f w).1.db ≡ w.db))
unfolding statement
statement-cases env f w = elim (Option-cases (env.db_fault w.tick)) [
  | inr (e, bad) ↦ rw bad (inr (e, refl, refl))
  | inl fine ↦ elim (Option-cases (f w.db)) [
    | inl violated ↦ rw (fine, violated) (inr (_, refl, refl))
    | inr (db, done) ↦ rw (fine, done) (inl (db, refl, refl, refl))
  ]
]

-- Connecting an organization to an installation succeeds with its row in the table, which both find;
-- or fails with the database as it was.
abbrev pub Connects : String → ℕ → Db → Result ConnectionView × World → Type 0
Connects o id before out =
    ((i : Installation) × (out.0 ≡ ok (view_of (some i)))
      × (upsert_installation i before ≡ some out.1.db)
      × (i.organization_id ≡ o)
      × (i.installation_id ≡ id))
    ⊎ ((e : Error) × (out.0 ≡ err e) × (out.1.db ≡ before))

pub ApiReply-cases :
    {A : Type 0} (r : ApiReply A)
    → ((a : A) × (r ≡ returned_api a)) ⊎ ((f : ApiFailure) × (r ≡ failed_api f))
ApiReply-cases (returned_api a) = inl (a, refl)
ApiReply-cases (failed_api f) = inr (f, refl)

stored-Connects :
    (env : Env) (i : Installation) (w : World)
    → Connects i.organization_id i.installation_id w.db
        ((statement env (upsert_installation i) >> pure (view_of (some i))) w)
unfolding pure ◌>>=◌
stored-Connects env i w = elim (statement-cases env (upsert_installation i) w) [
  | inl (db, changed, done, after) ↦ rw (done, after) (inl (i, refl, changed, refl, refl))
  | inr (e, failed, after) ↦ rw (failed, after) (inr (e, refl, refl))
]

module _ (env : Env) (client : Client) (o : String) (id : ℕ) where
  pub connect-Connects : (w : World) → Connects o id w.db (connect env client o id w)
  unfolding connect get_installation_account call_installation time_now new_installation_id pure
      raise ◌>>=◌
  connect-Connects w = elim (Bool-cases client.ok) [
    | inr off ↦ rw off (inr (_, refl, refl))
    | inl on ↦ elim (ApiReply-cases (env.api_installation w.tick id)) [
      | inr (f, no_account) ↦ rw (on, no_account) (inr (_, refl, refl))
      | inl (account, found) ↦ elim (Reply-cases (env.new_id (suc (suc w.tick)) id_prefix)) [
        | inr (e, no_id) ↦ rw (on, found, no_id) (inr (_, refl, refl))
        | inl (row_id, given) ↦ rw (on, found, given) (stored-Connects env _ _)
      ]
    ]
  ]

-- What an organization sees of its connection.
abbrev pub seen : String → Db → ConnectionView
seen o db = view_of (get_by_organization o db)

same_view : (i row : Installation) → SameConnection i row → view_of (some row) ≡ view_of (some i)
same_view i row (_, number, login, _) = rw (number, login) refl

pub seen-upsert :
    (i : Installation) (p : String) (db after : Db)
    → upsert_installation i db ≡ some after
    → (seen p after ≡ (if p == i.organization_id then view_of (some i) else seen p db))
      × ((row : Installation) × (get_by_installation_id i.installation_id after ≡ some row)
          × (row.organization_id ≡ i.organization_id))
unfolding get_by_organization get_by_installation_id
seen-upsert i p db after done =
    let ((row, found, same), by_id, others) = upsert-Stores i db after done in
    elim (Bool-cases (p == i.organization_id)) [
      | inr other ↦ rw other (ap view_of (others p other), by_id)
      | inl mine ↦ (
        rw ((==_iff p i.organization_id).0 mine, ==_refl i.organization_id)
            (ap view_of found ∙ same_view i row same),
        by_id,
      )
    ]

-- A run of connect: a view is returned, the organization `o` sees it, another organization `p` sees
-- what it saw before, and the installation leads to `o`; or nothing has changed.
abbrev pub Connected : String → String → ℕ → Db → Result ConnectionView × World → Type 0
Connected o p id before out =
    ((view : ConnectionView) × (out.0 ≡ ok view)
      × (view.installation_id ≡ id)
      × (seen p out.1.db ≡ (if p == o then view else seen p before))
      × ((i : Installation) × (get_by_installation_id id out.1.db ≡ some i)
          × (i.organization_id ≡ o)))
    ⊎ ((e : Error) × (out.0 ≡ err e) × (out.1.db ≡ before))

abbrev pub Disconnected : String → String → Db → Result (Unit {0}) × World → Type 0
Disconnected o p before out =
    ((out.0 ≡ ok tt) × (seen p out.1.db ≡ (if p == o then view_of none else seen p before)))
    ⊎ ((e : Error) × (out.0 ≡ err e) × (out.1.db ≡ before))

module _ (env : Env) (client : Client) (o p : String) (id : ℕ) (w : World) where
  -- Connecting an organization either fails, with the database as it was, or returns its new
  -- connection, which is then what this organization sees, while any other sees what it saw before;
  -- and the organization is the one that is found by the installation.
  pub connect_refines : Connected o p id w.db (connect env client o id w)
  connect_refines = elim (connect-Connects env client o id w) [
    | inr failed ↦ inr failed
    | inl (i, done, stored, mine, named) ↦
        let (view, by_id) = seen-upsert i p w.db _ stored in
        inl (view_of (some i), done, named, rw mine at view, rw (mine, named) at by_id)
  ]

module _ (env : Env) (client : Client) (o p : String) (w : World) where
  -- Disconnecting an organization either fails, with the database as it was, or leaves it without a
  -- connection, while any other sees what it saw before.
  pub disconnect_refines : Disconnected o p w.db (disconnect env client o w)
  unfolding disconnect execute statement get_by_organization delete_by_organization
  disconnect_refines = elim (Option-cases (env.db_fault w.tick)) [
    | inr (e, bad) ↦ rw bad (inr (e, refl, refl))
    | inl fine ↦ rw fine (
        inl (
          refl,
          elim (Bool-cases (p == o)) [
            | inl mine ↦
                rw ((==_iff p o).0 mine, ==_refl o)
                  (ap view_of (find-keep_own o w.db.installations))
            | inr other ↦ rw other (ap view_of (find-keep_other o p w.db.installations other))
          ],
        ))
  ]
