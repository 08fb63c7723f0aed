-- ===== src/Subscribers/Conserved.antt =====
-- No delivery gets lost, and none is dealt with twice.
use synthy.Prelude.{ℕ, suc, ◌+◌, ◌≡◌, refl, ap, arith, List, [], ◌∷◌, ◌++◌, nat_eq, if◌then◌else◌}
use synthy.Subscribers.{Phase, Feed, Event, started, Step, Run}

-- how often a tag is in a list
abbrev pub count : ℕ → List ℕ → ℕ
count t [] = 0
count t (x ∷ xs) = let rest = count t xs in if nat_eq x t then suc rest else rest

count-append : (t : ℕ) (xs ys : List ℕ) → count t (xs ++ ys) ≡ count t xs + count t ys
count-append t [] ys = omega arith
count-append t (x ∷ xs) ys = ground (arith, count-append t xs ys)

-- the tags of the deliveries that arrived
abbrev pub arrived : {D : Type 0} → List (Event D) → List ℕ
arrived [] = []
arrived (Event.arrives t d ∷ events) = t ∷ arrived events
arrived (Event.cancelled ∷ events) = arrived events
arrived (Event.closed ∷ events) = arrived events
arrived (Event.taken ∷ events) = arrived events

abbrev pub held : {M : Type 0} → Phase M → List ℕ
held (Phase.holding t m) = t ∷ []
held Phase.waiting = []
held Phase.stopped = []

abbrev pub handed_tags : {M : Type 0} → List (ℕ × M) → List ℕ
handed_tags [] = []
handed_tags ((t, m) ∷ pairs) = t ∷ handed_tags pairs

handed_tags-append :
    {M : Type 0} (xs ys : List (ℕ × M)) → handed_tags (xs ++ ys) ≡ handed_tags xs ++ handed_tags ys
handed_tags-append [] ys = refl
handed_tags-append ((t, m) ∷ xs) ys = ap (◌∷◌ t) (handed_tags-append xs ys)

-- how often a delivery was handed over, dropped, requeued, or is held
abbrev pub accounted : {M : Type 0} → ℕ → Feed M → ℕ
accounted t f =
    count t (handed_tags f.handed) + count t f.dropped + count t f.requeued + count t (held f.phase)

module _ {D M : Type 0} (decode : D → M) (t : ℕ) where
  Step-accounted :
      {f g : Feed M} {s : Event D}
      → Step decode f s g
      → accounted t g ≡ accounted t f + count t (arrived (s ∷ []))
  Step-accounted (Step.stop f at) = rw at (omega arith)
  Step-accounted (Step.close f at) = rw at (omega arith)
  Step-accounted (Step.drop f x e at) = rw (at, count-append t f.dropped (x ∷ [])) (omega arith)
  Step-accounted (Step.hold f x d at) = rw at (omega arith)
  Step-accounted (Step.hand f x m at) =
      rw
        (
          at,
          handed_tags-append f.handed ((x, m) ∷ []),
          count-append t (handed_tags f.handed) (x ∷ []),
        )
        (omega arith)
  Step-accounted (Step.requeue f x m at) = rw (at, count-append t f.requeued (x ∷ [])) (omega arith)

  count-arrived :
      (s : Event D) (events : List (Event D))
      → count t (arrived (s ∷ events)) ≡ count t (arrived (s ∷ [])) + count t (arrived events)
  count-arrived (Event.arrives x d) events = ground arith
  count-arrived Event.cancelled events = omega arith
  count-arrived Event.closed events = omega arith
  count-arrived Event.taken events = omega arith

  Run-accounted :
      {f h : Feed M} {events : List (Event D)}
      → Run decode f events h
      → accounted t h ≡ accounted t f + count t (arrived events)
  Run-accounted (Run.rest f) = omega arith
  Run-accounted (Run.then f g h s events step run) =
      let one = Step-accounted step in
      let more = Run-accounted run in
      let both = count-arrived s events in omega (arith, one, more, both)

-- From its start on, whatever happens in whatever order, a subscriber has handed over, dropped,
-- requeued or still holds each delivery exactly as often as it has arrived.
pub Run-conserves :
    {D M : Type 0} (decode : D → M) (t : ℕ) {f : Feed M} {events : List (Event D)}
    → Run decode started events f
    → count t (arrived events) ≡ accounted t f
Run-conserves decode t run = let total = Run-accounted decode t run in omega (arith, total)
