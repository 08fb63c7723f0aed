-- ===== src/Subscribers/Ordered.antt =====
-- In which order messages are handed over.
use synthy.Prelude.{
  ℕ, ◌≤◌, ◌≡◌, refl, sym, ◌∙◌, ap, arith, List, [], ◌∷◌, ◌++◌, append-nil, append_assoc, length,
}
use synthy.Exec.{returned, failed}
use synthy.Subscribers.{Phase, Feed, Event, started, Step, Run}

module _ {D M : Type 0} (decode : D → M) where
  -- the messages of the deliveries that could be unmarshalled, in the order of their arrival
  abbrev pub decoded : List (Event D) → List (ℕ × M)
  decoded [] = []
  decoded (Event.arrives t (returned d) ∷ events) = (t, decode d) ∷ decoded events
  decoded (Event.arrives t (failed e) ∷ events) = decoded events
  decoded (Event.cancelled ∷ events) = decoded events
  decoded (Event.closed ∷ events) = decoded events
  decoded (Event.taken ∷ events) = decoded events

  abbrev Left : Phase M → List (ℕ × M) → Type 0
  Left Phase.waiting left = left ≡ []
  Left (Phase.holding t m) left = left ≡ (t, m) ∷ []
  Left Phase.stopped left = length left ≤ 1

  abbrev Upto : List (ℕ × M) → Feed M → Type 0
  Upto all f = (left : List (ℕ × M)) × (all ≡ f.handed ++ left) × Left f.phase left

  Step-Upto :
      {f g : Feed M} {s : Event D} (all : List (ℕ × M))
      → Step decode f s g
      → Upto all f
      → Upto (all ++ decoded (s ∷ [])) g
  Step-Upto all (Step.stop f at) (left, e, fits) =
      let empty : left ≡ [] = rw at at fits in (left, append-nil all ∙ e, rw empty (omega arith))
  Step-Upto all (Step.close f at) (left, e, fits) =
      let empty : left ≡ [] = rw at at fits in (left, append-nil all ∙ e, rw empty (omega arith))
  Step-Upto all (Step.drop f x bad at) (left, e, fits) = (left, append-nil all ∙ e, fits)
  Step-Upto all (Step.hold f x d at) (left, e, fits) =
      let empty : left ≡ [] = rw at at fits in
      let before : all ≡ f.handed = e ∙ ap (λ ys. f.handed ++ ys) empty ∙ append-nil f.handed in
      ((x, decode d) ∷ [], ap (λ ys. ys ++ (x, decode d) ∷ []) before, refl)
  Step-Upto all (Step.hand f x m at) (left, e, fits) =
      let one : left ≡ (x, m) ∷ [] = rw at at fits in
      (
        [],
        append-nil all
            ∙ e
            ∙ ap (λ ys. f.handed ++ ys) one
            ∙ sym (append-nil (f.handed ++ (x, m) ∷ [])),
        refl,
      )
  Step-Upto all (Step.requeue f x m at) (left, e, fits) =
      let one : left ≡ (x, m) ∷ [] = rw at at fits in
      (left, append-nil all ∙ e, rw one (omega arith))

  decoded-append :
      (s : Event D) (events : List (Event D))
      → decoded (s ∷ []) ++ decoded events ≡ decoded (s ∷ events)
  decoded-append (Event.arrives t (returned d)) events = refl
  decoded-append (Event.arrives t (failed e)) events = refl
  decoded-append Event.cancelled events = refl
  decoded-append Event.closed events = refl
  decoded-append Event.taken events = refl

  Run-Upto :
      {f h : Feed M} {events : List (Event D)} (all : List (ℕ × M))
      → Run decode f events h
      → Upto all f
      → Upto (all ++ decoded events) h
  Run-Upto all (Run.rest f) (left, e, fits) = (left, append-nil all ∙ e, fits)
  Run-Upto all (Run.then f g h s events step run) upto =
      let (left, e, fits) = Run-Upto (all ++ decoded (s ∷ [])) run (Step-Upto all step upto) in
      (
        left,
        ap (λ ys. all ++ ys) (sym (decoded-append s events))
            ∙ sym (append_assoc all (decoded (s ∷ [])) (decoded events))
            ∙ e,
        fits,
      )

  Left-few : (phase : Phase M) (left : List (ℕ × M)) → Left phase left → length left ≤ 1
  Left-few Phase.waiting left fits = rw fits (omega arith)
  Left-few (Phase.holding t m) left fits = rw fits (omega arith)
  Left-few Phase.stopped left fits = fits

-- From its start on, whatever happens in whatever order, a subscriber hands over the messages that
-- could be unmarshalled in the order in which they arrived, each with its delivery, all but at most
-- the last one.
pub Run-hands_over_in_order :
    {D M : Type 0} (decode : D → M) {f : Feed M} {events : List (Event D)}
    → Run decode started events f
    → (left : List (ℕ × M)) × (decoded decode events ≡ f.handed ++ left) × (length left ≤ 1)
Run-hands_over_in_order decode {f} run =
    let (left, e, fits) = Run-Upto decode [] run ([], refl, refl) in
    (left, e, Left-few decode f.phase left fits)
