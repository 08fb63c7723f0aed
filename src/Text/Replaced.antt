-- ===== src/Text/Replaced.antt =====
-- What a text holds after a replacement.
use Prim.Native.Char.{code}
use synthy.Prelude.{
  String, ℕ, zero, suc, ◌-◌, ◌≡◌, refl, arith, Bool, true, false, ◌&&◌, not, nat_eq, inl, inr,
  Bool-cases,
}
use synthy.Text.{starts_with, occurs, replace_from, replace_all, text_length, prepend}

-- No character is '*'.
abbrev pub starless : String → Bool
starless String.[] = true
starless (String.◌∷◌ c s) = not (nat_eq (code c) 42) && starless s

abbrev pub is_empty : String → Bool
is_empty String.[] = true
is_empty (String.◌∷◌ c s) = false

starts_with_empty : (p : String) → is_empty p ≡ false → starts_with p "" ≡ false
unfolding starts_with
starts_with_empty String.[] full = full
starts_with_empty (String.◌∷◌ d p) full = refl

starts_with_star :
    (p s : String)
    → is_empty p ≡ false
    → starless p ≡ true
    → starts_with p (String.◌∷◌ "*" s) ≡ false
unfolding starts_with
starts_with_star String.[] s full free = ground arith
starts_with_star (String.◌∷◌ d p) s full free = ground arith

module _ (old : String) where
  abbrev redacted : ℕ → String → String
  redacted skip s = replace_from old "***" skip s

  -- What the replaced text starts with, the given text starts with, unless a '*' is in it.
  starts_with-redacted :
      (p s : String)
      → starless p ≡ true
      → starts_with p (redacted 0 s) ≡ true
      → starts_with p s ≡ true
  unfolding starts_with replace_from
  starts_with-redacted String.[] s free h = refl
  starts_with-redacted (String.◌∷◌ d p) String.[] free h = h
  starts_with-redacted (String.◌∷◌ d p) (String.◌∷◌ c s) free h =
      elim (Bool-cases (starts_with old (String.◌∷◌ c s))) [
        | inl hit ↦ let h' = rw hit at h in ground (arith, h')
        | inr miss ↦ let h' = rw miss at h in ground (arith, h', starts_with-redacted p s)
      ]

  -- Nothing that is not empty and has no '*' is found in the text that is left.
  occurs-redacted :
      (skip : ℕ) (s : String)
      → is_empty old ≡ false
      → starless old ≡ true
      → occurs old (redacted skip s) ≡ false
  unfolding occurs starts_with replace_from
  occurs-redacted skip String.[] full free = starts_with_empty old full
  occurs-redacted (suc skip) (String.◌∷◌ c s) full free = occurs-redacted skip s full free
  occurs-redacted zero (String.◌∷◌ c s) full free =
      elim (Bool-cases (starts_with old (String.◌∷◌ c s))) [
        | inl hit ↦ rw hit (
            let rest = redacted (text_length old - 1) s in
            ground (
              arith,
              occurs-redacted (text_length old - 1) s,
              starts_with_star old (prepend "**" rest),
              starts_with_star old (prepend "*" rest),
              starts_with_star old rest,
            ))
        | inr miss ↦
            rw miss (ground (arith, occurs-redacted 0 s, starts_with-redacted old (String.◌∷◌ c s)))
      ]

-- A text that is not empty and has no '*' is not found where it was replaced by "***".
pub occurs-replace_all :
    (s old : String)
    → is_empty old ≡ false
    → starless old ≡ true
    → occurs old (replace_all s old "***") ≡ false
unfolding replace_all
occurs-replace_all s old = occurs-redacted old 0 s
