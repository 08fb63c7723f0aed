-- ===== src/Db/Installations.antt =====
-- The table of installations, by organization and by installation.
use synthy.Prelude.{
  String, ◌≡◌, refl, arith, Bool, true, false, List, [], ◌∷◌, ◌++◌, map, none, some, find, exists,
  keep, not, nat_eq, ◌==◌, ==_iff, ==_refl, Bool-cases, inl, inr,
}
use synthy.Model.{Installation}
use synthy.Db.{Db}
use synthy.Db.Rows.{upsert_installation, reinstall, taken}

-- The account and the installation of a row are those of another.
abbrev pub SameConnection : Installation → Installation → Type 0
SameConnection i row =
    (row.organization_id ≡ i.organization_id)
    × (row.installation_id ≡ i.installation_id)
    × (row.account_login ≡ i.account_login)
    × (row.account_type ≡ i.account_type)

module _ (i : Installation) where
  abbrev own : Installation → Bool
  own row = row.organization_id == i.organization_id

  abbrev same_id : Installation → Bool
  same_id row = nat_eq row.installation_id i.installation_id

  own-reinstall : (x : Installation) → own (reinstall i x) ≡ own x
  own-reinstall x = elim (Bool-cases (own x)) [
    | inl mine ↦ rw (mine, mine) refl
    | inr other ↦ rw (other, other) refl
  ]

  reinstall-SameConnection : (x : Installation) → own x ≡ true → SameConnection i (reinstall i x)
  reinstall-SameConnection x mine =
      rw mine ((==_iff x.organization_id i.organization_id).0 mine, refl, refl, refl)

  find-map-own :
      (rows : List Installation)
      → exists own rows ≡ true
      → (row : Installation) × (find own (map (reinstall i) rows) ≡ some row) × SameConnection i row
  unfolding find exists
  find-map-own [] h = ground arith
  find-map-own (x ∷ rows) h = elim (Bool-cases (own x)) [
    | inl mine ↦ (reinstall i x, rw (own-reinstall x, mine) refl, reinstall-SameConnection x mine)
    | inr other ↦ rw (own-reinstall x, other) (find-map-own rows (rw other at h))
  ]

  find-map_other :
      (o : String) (rows : List Installation)
      → (o == i.organization_id) ≡ false
      → find (λ row. row.organization_id == o) (map (reinstall i) rows)
        ≡ find (λ row. row.organization_id == o) rows
  unfolding find
  find-map_other o [] other = refl
  find-map_other o (x ∷ rows) other = ground (arith, find-map_other o rows)

  find-none :
      (p : Installation → Bool) (rows : List Installation)
      → exists p rows ≡ false
      → find p rows ≡ none
  unfolding find exists
  find-none p [] h = refl
  find-none p (x ∷ rows) h = ground (arith, find-none p rows)

  same_id-reinstall : (x : Installation) → own x ≡ true → same_id (reinstall i x) ≡ true
  same_id-reinstall x mine = rw mine (ground arith)

  not_taken :
      (x : Installation) (rows : List Installation)
      → own x ≡ false
      → exists (taken i) (x ∷ rows) ≡ false
      → (same_id (reinstall i x) ≡ false) × (exists (taken i) rows ≡ false)
  unfolding exists
  not_taken x rows other free = rw other (ground arith)

  -- Nobody else has the installation, so the organization's row is the one that is found by it.
  find-map-same_id :
      (rows : List Installation)
      → exists (taken i) rows ≡ false
      → exists own rows ≡ true
      → (row : Installation) × (find same_id (map (reinstall i) rows) ≡ some row)
        × (row.organization_id ≡ i.organization_id)
  unfolding find exists
  find-map-same_id [] free h = ground arith
  find-map-same_id (x ∷ rows) free h = elim (Bool-cases (own x)) [
    | inl mine ↦
        (reinstall i x, rw (same_id-reinstall x mine) refl, (reinstall-SameConnection x mine).0)
    | inr other ↦
        let (missed, free_below) = not_taken x rows other free in
        rw missed (find-map-same_id rows free_below (rw other at h))
  ]

  find-append :
      (p : Installation → Bool) (rows : List Installation) (new : Installation)
      → exists p rows ≡ false
      → p new ≡ true
      → find p (rows ++ new ∷ []) ≡ some new
  unfolding find exists
  find-append p [] new none_yet hit = rw hit refl
  find-append p (x ∷ rows) new none_yet hit = ground (arith, find-append p rows new)

  find-append_other :
      (p : Installation → Bool) (rows : List Installation) (new : Installation)
      → p new ≡ false
      → find p (rows ++ new ∷ []) ≡ find p rows
  unfolding find
  find-append_other p [] new miss = rw miss refl
  find-append_other p (x ∷ rows) new miss = ground (arith, find-append_other p rows new)

  nobody :
      (rows : List Installation)
      → exists (taken i) rows ≡ false
      → exists own rows ≡ false
      → exists same_id rows ≡ false
  unfolding exists
  nobody [] free new = refl
  nobody (x ∷ rows) free new = ground (arith, nobody rows)

  abbrev stored : Installation
  stored = record i { updated_at = i.created_at }

  -- What a row that was stored looks like to its organization, to its installation, and to others.
  abbrev Stores : List Installation → List Installation → Type 0
  Stores rows after =
      ((row : Installation) × (find own after ≡ some row) × SameConnection i row)
      × ((row : Installation) × (find same_id after ≡ some row)
          × (row.organization_id ≡ i.organization_id))
      × ((o : String)
          → (o == i.organization_id) ≡ false
          → find (λ row. row.organization_id == o) after
            ≡ find (λ row. row.organization_id == o) rows)

  updated-Stores :
      (rows : List Installation)
      → exists (taken i) rows ≡ false
      → exists own rows ≡ true
      → Stores rows (map (reinstall i) rows)
  updated-Stores rows free known =
      (find-map-own rows known, find-map-same_id rows free known, λ o. find-map_other o rows)

  added-Stores :
      (rows : List Installation)
      → exists (taken i) rows ≡ false
      → exists own rows ≡ false
      → Stores rows (rows ++ stored ∷ [])
  added-Stores rows free new = (
    (stored, find-append own rows stored new (==_refl i.organization_id), (refl, refl, refl, refl)),
    (stored, find-append same_id rows stored (nobody rows free new) (ground arith), refl),
    λ o other.
        find-append_other (λ row. row.organization_id == o) rows stored (ground (arith, other)),
  )

  rows_updated :
      (db after : Db)
      → upsert_installation i db ≡ some after
      → exists (taken i) db.installations ≡ false
      → exists own db.installations ≡ true
      → after.installations ≡ map (reinstall i) db.installations
  unfolding upsert_installation
  rows_updated db after done free known = ground arith

  rows_added :
      (db after : Db)
      → upsert_installation i db ≡ some after
      → exists (taken i) db.installations ≡ false
      → exists own db.installations ≡ false
      → after.installations ≡ db.installations ++ stored ∷ []
  unfolding upsert_installation
  rows_added db after done free new = ground arith

  pub upsert-Stores :
      (db after : Db)
      → upsert_installation i db ≡ some after
      → Stores db.installations after.installations
  unfolding upsert_installation
  upsert-Stores db after done = elim (Bool-cases (exists (taken i) db.installations)) [
    | inl clash ↦ ground (arith, rw clash at done)
    | inr free ↦ elim (Bool-cases (exists own db.installations)) [
      | inl known ↦
          rw (rows_updated db after done free known) (updated-Stores db.installations free known)
      | inr new ↦ rw (rows_added db after done free new) (added-Stores db.installations free new)
    ]
  ]

pub find-keep_own :
    (o : String) (rows : List Installation)
    → find (λ row. row.organization_id == o) (keep (λ row. not (row.organization_id == o)) rows)
      ≡ none
unfolding find keep
find-keep_own o [] = refl
find-keep_own o (x ∷ rows) = ground (arith, find-keep_own o rows)

pub find-keep_other :
    (o p : String) (rows : List Installation)
    → (p == o) ≡ false
    → find (λ row. row.organization_id == p) (keep (λ row. not (row.organization_id == o)) rows)
      ≡ find (λ row. row.organization_id == p) rows
unfolding find keep
find-keep_other o p [] other = refl
find-keep_other o p (x ∷ rows) other = ground (arith, find-keep_other o p rows)
