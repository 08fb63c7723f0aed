-- ===== src/Paths/Extension.antt =====
-- What it takes for a path to have the extension of Go source.
use Prim.Native.Char.{Char}
use Prim.Native.String.{◌++◌ as append}
use Prim.Native.String.append
use synthy.Prelude.{
  String, ◌≡◌, sym, ap, ◌∙◌, ◌↔◌, inl, inr, ◌==◌, String_discrete, Bool-cases, not, ◌&&◌, ◌⊎◌,
}
use synthy.Paths.{ext, has_slash, is_char, dot}

ext-append : (stem : String) → ext (append stem ".go") ≡ ".go"
unfolding ext String_discrete has_slash
ext-append String.[] = rw (append.nil ".go")
ext-append (String.◌∷◌ c s) = rw (append.cons c s ".go", ext-append s)

empty_ne_go : ¬ (◌≡◌ {A = String} "" ".go")
empty_ne_go e = cc

ext-cons :
    (c : Char) (s : String)
    → ext (String.◌∷◌ c s) ≡ ".go"
    → (String.◌∷◌ c s ≡ ".go") ⊎ (ext s ≡ ".go")
unfolding ext
ext-cons c s h = elim (Bool-cases (ext s == "")) [
  | inr more ↦ inr (rw more at h)
  | inl none_later ↦ elim (Bool-cases (is_char dot c && not (has_slash s))) [
    | inl starts ↦ inl (rw (none_later, starts) at h)
    | inr plain ↦ absurd (empty_ne_go (rw (none_later, plain) at h))
  ]
]

ext-go : (path : String) → ext path ≡ ".go" → (stem : String) × (path ≡ append stem ".go")
unfolding ext
ext-go String.[] h = absurd (empty_ne_go h)
ext-go (String.◌∷◌ c s) h = elim (ext-cons c s h) [
  | inl whole ↦ ("", whole ∙ sym (append.nil ".go"))
  | inr later ↦
      let (stem, e) = ext-go s later in
      (String.◌∷◌ c stem, ap (λ t. String.◌∷◌ c t) e ∙ sym (append.cons c stem ".go"))
]

-- A path has the extension of Go source exactly if it is some text followed by ".go".
pub ext_go_iff :
    (path : String) → (ext path ≡ ".go") ↔ ((stem : String) × (path ≡ append stem ".go"))
ext_go_iff path = (ext-go path, λ (stem, e). rw e (ext-append stem))
