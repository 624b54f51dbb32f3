-- ===== src/Prelude/Lists.antt =====
-- Lists of texts as sets, and lists measured by native numbers.
use Prim.Native.Nat.{ℕ, zero, suc, ◌+◌}
use Prim.Native.String.{String}
use mathlib.Core.Path.{◌≡◌, refl}
use mathlib.Core.Logic.{◌≢◌, ◌⊎◌, ◌↔◌, inl, inr}
use mathlib.Core.Bool.{Bool, true, false}
use mathlib.Core.List.{List, [], ◌∷◌, ◌++◌}
use native.Mathlib.Omega.{arith}
use text.Mathlib.Text.{◌==◌}
use text.Mathlib.TextEquality.{eq_iff}
use text.Mathlib.TextPositions.{eq_refl}
use smart_llm_gateway.Prelude.Tests.{if◌then◌else◌, test_of_ne}

module _ {ℓ} {A : Type ℓ} where
  abbrev pub length : List A → ℕ
  length [] = 0
  length (x ∷ xs) = suc (length xs)

  -- Rust's `is_empty`
  abbrev pub is_empty : List A → Bool
  is_empty [] = true
  is_empty (x ∷ xs) = false

  abbrev pub take : ℕ → List A → List A
  take zero xs = []
  take (suc n) [] = []
  take (suc n) (x ∷ xs) = x ∷ take n xs

  abbrev pub drop : ℕ → List A → List A
  drop zero xs = xs
  drop (suc n) [] = []
  drop (suc n) (x ∷ xs) = drop n xs

  -- `iter().filter(p)`, with a Boolean test.
  abbrev pub filter : (A → Bool) → List A → List A
  filter p [] = []
  filter p (x ∷ xs) = if p x then x ∷ filter p xs else filter p xs

  -- `iter().all(p)`
  abbrev pub all : (A → Bool) → List A → Bool
  all p [] = true
  all p (x ∷ xs) = if p x then all p xs else false

  abbrev pub All {κ} : (A → Type κ) → List A → Type κ
  All P [] = Unit
  All P (x ∷ xs) = P x × All P xs

-- `a` stands in the list.
abbrev pub In : {A : Type 0} → A → List A → Type 0
In a [] = ⊥
In a (x ∷ xs) = (a ≡ x) ⊎ In a xs

pub All-imp :
    {A : Type 0} (P Q : A → Type 0) (xs : List A) → ((a : A) → P a → Q a) → All P xs → All Q xs
All-imp P Q [] f h = tt
All-imp P Q (x ∷ xs) f h = (f x h.0, All-imp P Q xs f h.1)

pub All-In : {A : Type 0} (xs : List A) → All (λ x. In x xs) xs
All-In [] = tt
All-In (x ∷ xs) = (inl refl, All-imp _ _ xs (λ a h. inr h) (All-In xs))

-- `set.contains(x)`
abbrev pub contains : String → List String → Bool
contains a [] = false
contains a (x ∷ xs) = if a == x then true else contains a xs

-- `set.remove(x)`
abbrev pub remove : String → List String → List String
remove a [] = []
remove a (x ∷ xs) = if a == x then remove a xs else x ∷ remove a xs

-- A list without repetitions.
abbrev pub Distinct : List String → Type 0
Distinct [] = Unit
Distinct (x ∷ xs) = (contains x xs ≡ false) × Distinct xs

pub contains_iff : (a : String) (xs : List String) → (contains a xs ≡ true) ↔ In a xs
contains_iff a [] = (λ h. cc, λ h. absurd h)
contains_iff a (x ∷ xs) = (
  λ h. ground (arith, eq_iff a x, contains_iff a xs),
  λ h. ground (arith, eq_iff a x, contains_iff a xs),
)

pub contains_absent : (a : String) (xs : List String) → contains a xs ≡ false → In a xs → ⊥
contains_absent a xs e h = let k : contains a xs ≡ true = (contains_iff a xs).1 h in cc

pub contains-cons_self : (a : String) (xs : List String) → contains a (a ∷ xs) ≡ true
contains-cons_self a xs = ground (arith, eq_refl a)

pub contains-cons_head : (a b : String) (xs : List String) → a ≡ b → contains a (b ∷ xs) ≡ true
contains-cons_head a b xs e = ground (arith, eq_iff a b)

pub contains-singleton : (a b : String) → contains a (b ∷ []) ≡ true → a ≡ b
contains-singleton a b h = ground (arith, eq_iff a b)

pub contains-cons :
    (a b : String) (xs : List String) → contains a xs ≡ true → contains a (b ∷ xs) ≡ true
contains-cons a b xs h = ground arith

pub contains-tail_ne :
    (a b : String) (xs : List String) → contains a (b ∷ xs) ≡ false → contains a xs ≡ false
contains-tail_ne a b xs h = ground arith

-- Membership in a longer list is that of the head or of the tail.
pub contains-cons_cases :
    (a b : String) (xs : List String)
    → contains a (b ∷ xs) ≡ true
    → (a ≡ b) ⊎ (contains a xs ≡ true)
contains-cons_cases a b xs h = ground (arith, eq_iff a b)

pub contains-cons_ne :
    (a b : String) (xs : List String) → a ≢ b → contains a xs ≡ false → contains a (b ∷ xs) ≡ false
contains-cons_ne a b xs n h = ground (arith, test_of_ne a b n)

pub contains-append_left :
    (a : String) (xs ys : List String) → contains a xs ≡ true → contains a (xs ++ ys) ≡ true
contains-append_left a [] ys h = ground arith
contains-append_left a (x ∷ xs) ys h = ground (arith, contains-append_left a xs ys)

pub contains-append_right :
    (a : String) (xs ys : List String) → contains a ys ≡ true → contains a (xs ++ ys) ≡ true
contains-append_right a [] ys h = h
contains-append_right a (x ∷ xs) ys h = ground (arith, contains-append_right a xs ys)

-- Removing what is not there changes nothing.
pub remove_absent : (a : String) (xs : List String) → contains a xs ≡ false → remove a xs ≡ xs
remove_absent a [] h = refl
remove_absent a (x ∷ xs) h = ground (arith, remove_absent a xs)

pub remove-cons_self :
    (a : String) (xs : List String) → contains a xs ≡ false → remove a (a ∷ xs) ≡ xs
remove-cons_self a xs h = ground (arith, eq_refl a, remove_absent a xs)

pub length-append {ℓ} : {A : Type ℓ} (xs ys : List A) → length (xs ++ ys) ≡ length xs + length ys
length-append [] ys = omega arith
length-append (x ∷ xs) ys = omega (arith, length-append xs ys)
