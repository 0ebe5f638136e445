-- ===== src/Shared/Lists.antt =====
-- Lists over the native numbers: length, tests by a predicate, and membership.
use Prim.Native.Nat.{ℕ, zero, suc, ◌+◌}
use Prim.Native.Char.{code}
use Prim.Native.String.{String}
use mathlib.Core.Path.{◌≡◌, refl, ap}
use mathlib.Core.Logic.{◌⊎◌}
use mathlib.Core.Bool.{Bool, true, false, ◌&&◌, ◌||◌}
use mathlib.Core.Option.{Option, none, some}
use mathlib.Core.List.{List, [], ◌∷◌, ◌++◌}
use native.Mathlib.Omega.{arith}
use aiplatform.Shared.Tests.{◌==◌, if◌then◌else◌}

-- A Python string, as its code points.
abbrev pub Text : Type 0
Text = List ℕ

-- The code points of a literal.
abbrev pub codes : String → Text
codes String.[] = []
codes (String.◌∷◌ c s) = code c ∷ codes s

-- `text_a == text_b`
abbrev pub same_text : Text → Text → Bool
same_text [] [] = true
same_text [] (_ ∷ _) = false
same_text (_ ∷ _) [] = false
same_text (a ∷ as') (b ∷ bs) = a == b && same_text as' bs

-- `user_a == user_b` on optional names
abbrev pub same_name : Option Text → Option Text → Bool
same_name none none = true
same_name none (some _) = false
same_name (some _) none = false
same_name (some a) (some b) = same_text a b

-- The truth value of a string or a list.
abbrev pub is_filled {ℓ} : {A : Type ℓ} → List A → Bool
is_filled [] = false
is_filled (_ ∷ _) = true

-- `k in xs`
abbrev pub contains : ℕ → List ℕ → Bool
contains k [] = false
contains k (x ∷ xs) = k == x || contains k xs

module _ {ℓ} {A : Type ℓ} where
  abbrev pub length : List A → ℕ
  length [] = 0
  length (_ ∷ xs) = suc (length xs)

  -- `[x for x in xs if p(x)]`
  abbrev pub select : (A → Bool) → List A → List A
  select p [] = []
  select p (x ∷ xs) = let rest = select p xs in if p x then x ∷ rest else rest

  -- `xs[:n]`, or `LIMIT n`
  abbrev pub page : ℕ → List A → List A
  page zero xs = []
  page (suc n) [] = []
  page (suc n) (x ∷ xs) = x ∷ page n xs

  -- The first row that a query returns.
  abbrev pub first_where : (A → Bool) → List A → Option A
  first_where p [] = none
  first_where p (x ∷ xs) = if p x then some x else first_where p xs

  -- An `UPDATE ... WHERE`.
  abbrev pub update_where : (A → Bool) → (A → A) → List A → List A
  update_where p f [] = []
  update_where p f (x ∷ xs) = (if p x then f x else x) ∷ update_where p f xs

  abbrev pub All {κ} : (A → Type κ) → List A → Type κ
  All P [] = Unit
  All P (x ∷ xs) = P x × All P xs

  abbrev pub head? : List A → Option A
  head? [] = none
  head? (x ∷ _) = some x

  pub length-append : (xs ys : List A) → length (xs ++ ys) ≡ length xs + length ys
  length-append [] ys = omega arith
  length-append (x ∷ xs) ys = omega (arith, length-append xs ys)

-- Where an element stands in a list.
abbrev pub Member : {A : Type 0} → A → List A → Type 0
Member x [] = ⊥
Member x (y ∷ ys) = (x ≡ y) ⊎ Member x ys

pub same_text_refl : (t : Text) → same_text t t ≡ true
same_text_refl [] = refl
same_text_refl (c ∷ t) = ground (arith, same_text_refl t)

pub same_text-eq : (s t : Text) → same_text s t ≡ true → s ≡ t
same_text-eq [] [] h = refl
same_text-eq [] (_ ∷ _) h = ground arith
same_text-eq (_ ∷ _) [] h = ground arith
same_text-eq (a ∷ s) (b ∷ t) h = ground (arith, same_text-eq s t)

pub same_name-eq : (a b : Option Text) → same_name a b ≡ true → a ≡ b
same_name-eq none none h = refl
same_name-eq none (some _) h = ground arith
same_name-eq (some _) none h = ground arith
same_name-eq (some a) (some b) h = ap some (same_text-eq a b h)
