-- ===== src/Broker/Declares.antt =====
-- Which declarations a sequence of calls of amqp.Channel has added, if some call fails on the way.
use synthy.Prelude.{
  String, ℕ, zero, suc, ◌≡◌, refl, sym, ap, ◌∙◌, List, [], ◌∷◌, ◌++◌, append-nil, append_assoc,
  take, ◌⊎◌, inl, inr, Option-cases,
}
use synthy.Exec.{Error, Exec, Result, ok, err, pure, raise, wrapping, ◌>>=◌}
use synthy.Broker.{Declaration, Connection, declare, open_channel}

-- The call adds the given declarations in order, or fails after a part of them.
abbrev pub Adds :
    List Declaration → List Declaration → Result (Unit {0}) × List Declaration → Type 0
Adds ds done out =
    ((out.0 ≡ ok tt) × (out.1 ≡ done ++ ds))
    ⊎ ((n : ℕ) × (e : Error) × (out.0 ≡ err e) × (out.1 ≡ done ++ take n ds))

pub record Declares (ds : List Declaration) (action : Exec (List Declaration) (Unit {0}))
    : Type 0 where
  pub at : (done : List Declaration) → Adds ds done (action done)

take-append_left : (n : ℕ) (xs ys : List Declaration) → (m : ℕ) × (take m (xs ++ ys) ≡ take n xs)
take-append_left zero xs ys = (0, refl)
take-append_left (suc n) [] ys = (0, refl)
take-append_left (suc n) (x ∷ xs) ys =
    let (m, e) = take-append_left n xs ys in (suc m, ap (◌∷◌ x) e)

take-append_right :
    (n : ℕ) (xs ys : List Declaration) → (m : ℕ) × (take m (xs ++ ys) ≡ xs ++ take n ys)
take-append_right n [] ys = (n, refl)
take-append_right n (x ∷ xs) ys = let (m, e) = take-append_right n xs ys in (suc m, ap (◌∷◌ x) e)

pub Declares-wrapping :
    (context : String) (ds : List Declaration) (action : Exec (List Declaration) (Unit {0}))
    → Declares ds action
    → Declares ds (wrapping context action)
unfolding wrapping
Declares-wrapping context ds action d = record {
  at = λ done. elim (d.at done) [
    | inl (fine, all) ↦ rw fine (inl (refl, all))
    | inr (n, e, bad, part) ↦ rw bad (inr (n, _, refl, part))
  ];
}

pub Declares-bind :
    (ds es : List Declaration) (first rest : Exec (List Declaration) (Unit {0}))
    → Declares ds first
    → Declares es rest
    → Declares (ds ++ es) (first >>= λ _. rest)
unfolding ◌>>=◌
Declares-bind ds es first rest d k = record {
  at = λ done. elim (d.at done) [
    | inr (n, e, bad, part) ↦
        let (m, same) = take-append_left n ds es in
        rw bad (inr (m, e, refl, part ∙ ap (◌++◌ done) (sym same)))
    | inl (fine, all) ↦ elim (k.at (first done).1) [
      | inl (good, more) ↦
          rw fine (inl (good, more ∙ ap (λ xs. xs ++ es) all ∙ append_assoc done ds es))
      | inr (n, e, bad, part) ↦
          let (m, same) = take-append_right n ds es in
          rw fine (
            inr (
              m,
              e,
              bad,
              part
                  ∙ ap (λ xs. xs ++ take n es) all
                  ∙ append_assoc done ds (take n es)
                  ∙ ap (◌++◌ done) (sym same),
            ))
    ]
  ];
}

module _ (conn : Connection) where
  pub open_channel-Declares : Declares [] (open_channel conn)
  unfolding open_channel wrapping pure raise
  open_channel-Declares = record {
    at = λ done. elim (Option-cases conn.open_fault) [
      | inl fine ↦ rw fine (inl (refl, sym (append-nil done)))
      | inr (e, bad) ↦ rw bad (inr (0, _, refl, sym (append-nil done)))
    ];
  }

  pub declare-Declares : (d : Declaration) → Declares (d ∷ []) (declare conn d)
  unfolding declare raise
  declare-Declares d = record {
    at = λ done. elim (Option-cases (conn.fault done d)) [
      | inl fine ↦ rw fine (inl (refl, refl))
      | inr (e, bad) ↦ rw bad (inr (0, e, refl, sym (append-nil done)))
    ];
  }
