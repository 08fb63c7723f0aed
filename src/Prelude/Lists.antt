-- ===== src/Prelude/Lists.antt =====
-- Lists by Boolean tests and native lengths.
use Prim.Native.Nat.{ℕ, zero, suc, ◌+◌, ◌≤◌}
use Prim.Native.String.{String}
use mathlib.Core.Path.{◌≡◌, refl, sym, ap}
use mathlib.Core.Logic.{◌⊎◌, inl, inr, ◌↔◌}
use mathlib.Core.Bool.{Bool, true, false, ◌||◌}
use mathlib.Core.Option.{Option, none, some}
use mathlib.Core.List.{List, [], ◌∷◌, ◌++◌, map}
use native.Mathlib.Omega.{arith}
use synthy.Prelude.Tests.{◌==◌, ==_iff, Bool-cases, if◌then◌else◌}

-- Membership by recursion: it computes to sums, which the tactics read.
abbrev pub Member : {A : Type 0} → A → List A → Type 0
Member a [] = ⊥
Member a (x ∷ xs) = (x ≡ a) ⊎ Member a xs

abbrev pub All {ℓ κ} : {A : Type ℓ} → (A → Type κ) → List A → Type κ
All P [] = Unit
All P (x ∷ xs) = P x × All P xs

module _ {ℓ} {A : Type ℓ} where
  abbrev pub length : List A → ℕ
  length [] = 0
  length (x ∷ xs) = suc (length xs)

  abbrev pub take : ℕ → List A → List A
  take zero xs = []
  take (suc n) [] = []
  take (suc n) (x ∷ xs) = x ∷ take n xs

  abbrev pub drop : ℕ → List A → List A
  drop zero xs = xs
  drop (suc n) [] = []
  drop (suc n) (x ∷ xs) = drop n xs

  unfoldable pub keep : (A → Bool) → List A → List A
  keep p [] = []
  keep p (x ∷ xs) = let rest = keep p xs in if p x then x ∷ rest else rest

  unfoldable pub exists : (A → Bool) → List A → Bool
  exists p [] = false
  exists p (x ∷ xs) = p x || exists p xs

  unfoldable pub find : (A → Bool) → List A → Option A
  find p [] = none
  find p (x ∷ xs) = if p x then some x else find p xs

  pub length-append : (xs ys : List A) → length (xs ++ ys) ≡ length xs + length ys
  length-append [] ys = omega arith
  length-append (x ∷ xs) ys = omega (arith, length-append xs ys)

  pub length-take-le : (n : ℕ) (xs : List A) → length (take n xs) ≤ n
  length-take-le zero xs = omega arith
  length-take-le (suc n) [] = omega arith
  length-take-le (suc n) (x ∷ xs) = omega (arith, length-take-le n xs)

  pub length-drop-le : (n : ℕ) (xs : List A) → length (drop n xs) ≤ length xs
  length-drop-le zero xs = omega arith
  length-drop-le (suc n) [] = omega arith
  length-drop-le (suc n) (x ∷ xs) = omega (arith, length-drop-le n xs)

  pub take-append-drop : (n : ℕ) (xs : List A) → take n xs ++ drop n xs ≡ xs
  take-append-drop zero xs = refl
  take-append-drop (suc n) [] = refl
  take-append-drop (suc n) (x ∷ xs) = ap (◌∷◌ x) (take-append-drop n xs)

module _ {A : Type 0} where
  pub Member-append_left : (a : A) (xs ys : List A) → Member a xs → Member a (xs ++ ys)
  Member-append_left a [] ys m = elim m [ ]
  Member-append_left a (x ∷ xs) ys (inl e) = inl e
  Member-append_left a (x ∷ xs) ys (inr m) = inr (Member-append_left a xs ys m)

  pub Member-append_right : (a : A) (xs ys : List A) → Member a ys → Member a (xs ++ ys)
  Member-append_right a [] ys m = m
  Member-append_right a (x ∷ xs) ys m = inr (Member-append_right a xs ys m)

  pub Member-append : (a : A) (xs ys : List A) → Member a (xs ++ ys) → Member a xs ⊎ Member a ys
  Member-append a [] ys m = inr m
  Member-append a (x ∷ xs) ys m = ground (arith, Member-append a xs ys)

  pub Member-keep :
      (p : A → Bool) (a : A) (xs : List A) → Member a (keep p xs) ↔ (Member a xs × (p a ≡ true))
  unfolding keep
  Member-keep p a [] = ground arith
  Member-keep p a (x ∷ xs) = ground (arith, Member-keep p a xs)

  pub exists-Member :
      (p : A → Bool) (a : A) (xs : List A) → Member a xs → p a ≡ true → exists p xs ≡ true
  unfolding exists
  exists-Member p a [] m h = elim m [ ]
  exists-Member p a (x ∷ xs) m h = ground (arith, exists-Member p a xs)

  pub All-Member {κ} : (P : A → Type κ) (a : A) (xs : List A) → All P xs → Member a xs → P a
  All-Member P a [] h m = elim m [ ]
  All-Member P a (x ∷ xs) h (inl e) = rw e at (h.0)
  All-Member P a (x ∷ xs) h (inr m) = All-Member P a xs h.1 m

pub All-each {ℓ κ} : {A : Type ℓ} (P : A → Type κ) → ((a : A) → P a) → (xs : List A) → All P xs
All-each P each [] = tt
All-each P each (x ∷ xs) = (each x, All-each P each xs)

pub All-map {ℓ κ} :
    {A : Type ℓ} (P R : A → Type κ) → ((a : A) → P a → R a) → (xs : List A) → All P xs → All R xs
All-map P R f [] h = tt
All-map P R f (x ∷ xs) h = (f x h.0, All-map P R f xs h.1)

unfoldable pub contains : String → List String → Bool
unfolding exists
contains s = exists (λ t. s == t)

pub contains_iff : (s : String) (ts : List String) → (contains s ts ≡ true) ↔ Member s ts
unfolding contains
contains_iff s [] = ground arith
contains_iff s (t ∷ ts) = ground (arith, contains_iff s ts)

-- No text occurs twice.
abbrev pub Distinct : List String → Type 0
Distinct [] = Unit
Distinct (x ∷ xs) = (contains x xs ≡ false) × Distinct xs

-- A key of the rows that pass a test is the key of such a row.
pub contains-map-keep :
    {A : Type 0} (key : A → String) (p : A → Bool) (s : String) (xs : List A)
    → contains s (map key (keep p xs)) ≡ true
    → (a : A) × Member a xs × (p a ≡ true) × (key a ≡ s)
unfolding contains keep
contains-map-keep {A} key p s [] h = cc
contains-map-keep {A} key p s (x ∷ xs) h = elim (Bool-cases (p x)) [
  | inl hit ↦ elim (Bool-cases (s == key x)) [
    | inl same ↦ (x, inl refl, hit, sym ((==_iff s (key x)).0 same))
    | inr other ↦ later (contains-map-keep key p s xs (ground arith))
  ]
  | inr miss ↦ later (contains-map-keep key p s xs (ground arith))
]
  where
    later :
        ((a : A) × Member a xs × (p a ≡ true) × (key a ≡ s))
        → (a : A) × Member a (x ∷ xs) × (p a ≡ true) × (key a ≡ s)
    later (a, m, t, e) = (a, inr m, t, e)

-- A row that is mapped comes from a row.
pub Member-map :
    {A B : Type 0} (f : A → B) (b : B) (xs : List A)
    → Member b (map f xs)
    → (a : A) × Member a xs × (f a ≡ b)
Member-map f b [] m = elim m [ ]
Member-map f b (x ∷ xs) (inl e) = (x, inl refl, e)
Member-map f b (x ∷ xs) (inr m) = let (a, n, e) = Member-map f b xs m in (a, inr n, e)

pub contains-append :
    (s : String) (xs ys : List String) → contains s (xs ++ ys) ≡ (contains s xs || contains s ys)
unfolding contains
contains-append s [] ys = refl
contains-append s (x ∷ xs) ys = ground (arith, contains-append s xs ys)

pub Distinct-append_one :
    (xs : List String) (y : String) → Distinct xs → contains y xs ≡ false → Distinct (xs ++ y ∷ [])
unfolding contains
Distinct-append_one [] y d h = (refl, tt)
Distinct-append_one (x ∷ xs) y d h =
    ground (arith, Distinct-append_one xs y d.1, contains-append x xs (y ∷ []))

-- The keys of rows, and the rows.
pub contains-map :
    {A : Type 0} (key : A → String) (a : A) (xs : List A)
    → Member a xs
    → contains (key a) (map key xs) ≡ true
unfolding contains
contains-map key a [] m = elim m [ ]
contains-map key a (x ∷ xs) (inl e) = ground (arith, ==_iff (key a) (key x), ap key e)
contains-map key a (x ∷ xs) (inr m) = ground (arith, contains-map key a xs m)

pub Member-of-contains :
    {A : Type 0} (key : A → String) (s : String) (xs : List A)
    → contains s (map key xs) ≡ true
    → (a : A) × Member a xs × (key a ≡ s)
unfolding contains
Member-of-contains key s [] h = cc
Member-of-contains key s (x ∷ xs) h = elim (Bool-cases (s == key x)) [
  | inl same ↦ (x, inl refl, sym ((==_iff s (key x)).0 same))
  | inr other ↦ let (a, m, e) = Member-of-contains key s xs (ground arith) in (a, inr m, e)
]

pub Member-map_on :
    {A B : Type 0} (f : A → B) (a : A) (xs : List A) → Member a xs → Member (f a) (map f xs)
Member-map_on f a [] m = elim m [ ]
Member-map_on f a (x ∷ xs) (inl e) = inl (ap f e)
Member-map_on f a (x ∷ xs) (inr m) = inr (Member-map_on f a xs m)

pub All-members {κ} :
    {A : Type 0} (P : A → Type κ) (xs : List A) → ((a : A) → Member a xs → P a) → All P xs
All-members P [] h = tt
All-members P (x ∷ xs) h = (h x (inl refl), All-members P xs (λ a m. h a (inr m)))
