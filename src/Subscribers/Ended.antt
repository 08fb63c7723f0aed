-- ===== src/Subscribers/Ended.antt =====
-- How long the goroutine of a subscriber runs.
use synthy.Prelude.{ℕ, suc, ◌+◌, ◌*◌, ◌≤◌, ◌≡◌, refl, ◌⊎◌, inl, inr, arith, List, [], ◌∷◌, length}
use synthy.Subscribers.{Phase, Feed, Event, started, Step, Run}
use synthy.Subscribers.Conserved.{arrived}

-- how many events there can be yet without another delivery
abbrev credit : {M : Type 0} → Phase M → ℕ
credit Phase.stopped = 0
credit Phase.waiting = 1
credit (Phase.holding t m) = 2

module _ {D M : Type 0} (decode : D → M) where
  Step-credit :
      {f g : Feed M} {s : Event D}
      → Step decode f s g
      → suc (credit g.phase) ≤ credit f.phase + 2 * length (arrived (s ∷ []))
  Step-credit (Step.stop f at) = rw at (omega arith)
  Step-credit (Step.close f at) = rw at (omega arith)
  Step-credit (Step.drop f x e at) = rw at (omega arith)
  Step-credit (Step.hold f x d at) = rw at (omega arith)
  Step-credit (Step.hand f x m at) = rw at (omega arith)
  Step-credit (Step.requeue f x m at) = rw at (omega arith)

  length-arrived :
      (s : Event D) (events : List (Event D))
      → length (arrived (s ∷ events)) ≡ length (arrived (s ∷ [])) + length (arrived events)
  length-arrived (Event.arrives x d) events = omega arith
  length-arrived Event.cancelled events = omega arith
  length-arrived Event.closed events = omega arith
  length-arrived Event.taken events = omega arith

  Run-credit :
      {f h : Feed M} {events : List (Event D)}
      → Run decode f events h
      → length events + credit h.phase ≤ credit f.phase + 2 * length (arrived events)
  Run-credit (Run.rest f) = omega arith
  Run-credit (Run.then f g h s events step run) =
      let one = Step-credit step in
      let more = Run-credit run in
      let both = length-arrived s events in omega (arith, one, more, both)

  -- It has returned, and there is no further event, or it returns when the context is cancelled.
  abbrev pub CanEnd : Feed M → Type 0
  CanEnd f =
      ((f.phase ≡ Phase.stopped) × ((s : Event D) (g : Feed M) → Step decode f s g → ⊥))
      ⊎ ((g : Feed M) × Step decode f Event.cancelled g × (g.phase ≡ Phase.stopped))

  no_step : {f g : Feed M} {s : Event D} → f.phase ≡ Phase.stopped → Step decode f s g → ⊥
  no_step over (Step.stop f at) = ground (arith, over, at)
  no_step over (Step.close f at) = ground (arith, over, at)
  no_step over (Step.drop f x e at) = ground (arith, over, at)
  no_step over (Step.hold f x d at) = ground (arith, over, at)
  no_step over (Step.hand f x m at) = ground (arith, over, at)
  no_step over (Step.requeue f x m at) = ground (arith, over, at)

  ends_from : (f : Feed M) (phase : Phase M) → f.phase ≡ phase → CanEnd f
  ends_from f Phase.stopped over = inl (over, λ s g step. no_step over step)
  ends_from f Phase.waiting at = inr (_, Step.stop f at, refl)
  ends_from f (Phase.holding t m) at = inr (_, Step.requeue f t m at, refl)

-- From its start on, whatever happens in whatever order, a subscriber is done after at most two events
-- for each delivery and one more: the loop ends when no more deliveries come. Wherever it is, it has
-- returned, and does nothing any more, or it returns when the context is cancelled.
pub Run-ends :
    {D M : Type 0} (decode : D → M) {f : Feed M} {events : List (Event D)}
    → Run decode started events f
    → (length events ≤ 2 * length (arrived events) + 1) × CanEnd decode f
Run-ends decode {f} run =
    let bound = Run-credit decode run in (omega (arith, bound), ends_from decode f f.phase refl)
