-- ===== src/Cloner/Left.antt =====
-- What a clone leaves behind.
use synthy.Prelude.{
  String, ℕ, ◌≡◌, refl, arith, false, List, [], ◌∷◌, ◌++◌, ◌⊎◌, inl, inr, Option, none, some, not,
  keep, contains, exists, ◌==◌, Bool-cases, Option-cases, ==_refl, ap, ==_iff, suc, ◌∙◌, ◌≢◌,
}
use synthy.Exec.{
  Exec, Error, Result, returned, ok, err, pure, raise, lift, wrapping, attempt, on_error, ◌>>=◌,
  panic,
}
use synthy.Exec.Rules.{Reply-cases}
use synthy.Changes.Proto.{RepositoryEventMessage}
use synthy.Db.{Db}
use synthy.World.{World, Env, VectorRequest, EmbeddingRequest, Settlement}
use synthy.Paths.{join}
use synthy.Cloner.{
  Clone, clone, clone_into, make_temp, with_token, run_git, git_done, sanitize_leaf, cleanup,
  remove_all,
}

-- The parts of the world that cloning has nothing to do with.
abbrev pub others :
    World
    → Db
      × List VectorRequest
      × List EmbeddingRequest
      × List Settlement
      × List RepositoryEventMessage
      × List ℕ
others w = (w.db, w.requests, w.published, w.settled, w.queued, w.clients)

module _ (env : Env) where
  pub cleanup-others :
      (d : String) (v : World)
      → ((cleanup env d v).0 ≡ ok tt) × (others (cleanup env d v).1 ≡ others v)
  unfolding cleanup remove_all attempt pure ◌>>=◌
  cleanup-others d v = elim (Option-cases (env.remove_fault v.tick)) [
    | inl fine ↦ rw fine (refl, refl)
    | inr (f, failed) ↦ rw failed (refl, refl)
  ]

  pub cleanup-clones :
      (d : String) (v : World)
      → env.remove_fault v.tick ≡ none
      → (cleanup env d v).1.clones ≡ keep (λ c. not (c == d)) v.clones
  unfolding cleanup remove_all attempt pure ◌>>=◌
  cleanup-clones d v fine = rw fine refl

pub drop_last :
    (d : String) (xs : List String)
    → contains d xs ≡ false
    → keep (λ c. not (c == d)) (xs ++ d ∷ []) ≡ xs
unfolding contains exists keep
drop_last d [] fresh = ground (arith, ==_refl d)
drop_last d (x ∷ xs) fresh = elim (Bool-cases (x == d)) [
  | inl same ↦ ground (arith, ==_iff x d)
  | inr other ↦ rw other (ap (◌∷◌ x) (drop_last d xs (ground arith)))
]

abbrev Fetches : Clone → World → Result Clone × World → Type 0
Fetches made v out =
    ((out.0 ≡ ok made) ⊎ ((e : Error) × (out.0 ≡ err e)))
    × (others out.1 ≡ others v)
    × (out.1.clones ≡ v.clones)

-- A clone that succeeds adds one directory, in which the clone's path lies; a clone that fails adds
-- none.
abbrev pub Opens : String → World → Result Clone × World → Type 0
Opens leaf w out =
    (((c : Clone) × (out.0 ≡ ok c)
        × (c.path ≡ join c.parent (sanitize_leaf leaf))
        × (out.1.clones ≡ w.clones ++ c.parent ∷ [])
        × (contains c.parent w.clones ≡ false))
      ⊎ ((e : Error) × (out.0 ≡ err e) × (out.1.clones ≡ w.clones)))
    × (others out.1 ≡ others w)

module _ (env : Env) (url branch token : String) where
  git_done-Fetches :
      (made : Clone) (done : Option (Error × String)) (v : World)
      → Fetches made v (git_done env made token done v)
  unfolding raise pure
  git_done-Fetches made none v = (inl refl, refl, refl)
  git_done-Fetches made (some _) v = (inr (_, refl), refl, refl)

  pub clone_into-Fetches :
      (made : Clone) (v : World) → Fetches made v (clone_into env made url branch token v)
  unfolding clone_into with_token run_git lift raise pure ◌>>=◌
  clone_into-Fetches made v = elim (Reply-cases (env.parse_url url)) [
    | inr (e, bad) ↦ rw bad (inr (_, refl), refl, refl)
    | inl (u, good) ↦ rw good (git_done-Fetches made _ _)
  ]

  abbrev with_dir : String → World → World
  with_dir d w = record w { tick = suc w.tick; clones = w.clones ++ d ∷ [] }

  with_dir-Opens :
      ((t : ℕ) → env.remove_fault t ≡ none)
      → (fetch : Exec World Clone) (d leaf : String) (w : World) → contains d w.clones ≡ false
      → Fetches
          (record { path = join d (sanitize_leaf leaf); parent = d })
          (with_dir d w)
          (fetch (with_dir d w))
      → Opens leaf w (on_error fetch (cleanup env d) (with_dir d w))
  unfolding on_error
  with_dir-Opens removes fetch d leaf w fresh (inl done, apart, left) =
      rw done (inl (_, refl, refl, left, fresh), apart)
  with_dir-Opens removes fetch d leaf w fresh (inr (e, failed), apart, left) =
      let after = (fetch (with_dir d w)).1 in
      rw failed (
        inr (
          e,
          refl,
          cleanup-clones env d after (removes after.tick)
              ∙ ap (keep (λ c. not (c == d))) left
              ∙ drop_last d w.clones fresh,
        ),
        (cleanup-others env d after).1 ∙ apart,
      )

  -- `fresh`: os.MkdirTemp makes a new directory.
  pub clone-Opens :
      (leaf : String) (w : World)
      → ((t : ℕ) → env.remove_fault t ≡ none)
      → ((d : String) → env.make_temp w.tick ≡ returned d → contains d w.clones ≡ false)
      → Opens leaf w (clone env url branch leaf token w)
  unfolding clone make_temp wrapping on_error ◌>>=◌
  clone-Opens leaf w removes fresh = elim (Reply-cases (env.make_temp w.tick)) [
    | inr (e, no_dir) ↦ rw no_dir (inr (_, refl, refl), refl)
    | inl (d, dir) ↦ rw dir (
        with_dir-Opens removes (clone_into env _ url branch token) d leaf w (fresh d dir)
          (clone_into-Fetches _ _))
  ]

  on_error-others :
      (fetch : Exec World Clone) (d : String) (made : Clone) (v : World)
      → Fetches made v (fetch v)
      → ((on_error fetch (cleanup env d) v).0 ≢ panic)
        × (others (on_error fetch (cleanup env d) v).1 ≡ others v)
  unfolding on_error
  on_error-others fetch d made v (inl done, apart, left) = rw done (λ e. ground (arith, e), apart)
  on_error-others fetch d made v (inr (e, failed), apart, left) =
      rw failed (λ e. ground (arith, e), (cleanup-others env d (fetch v).1).1 ∙ apart)

  -- Cloning does not panic, and changes nothing but the directories.
  pub clone-others :
      (leaf : String) (w : World)
      → ((clone env url branch leaf token w).0 ≢ panic)
        × (others (clone env url branch leaf token w).1 ≡ others w)
  unfolding clone make_temp wrapping ◌>>=◌
  clone-others leaf w = elim (Reply-cases (env.make_temp w.tick)) [
    | inr (e, no_dir) ↦ rw no_dir (λ e. ground (arith, e), refl)
    | inl (d, dir) ↦ rw dir (
        on_error-others (clone_into env _ url branch token) d _ (with_dir d w)
          (clone_into-Fetches _ _))
  ]
