-- ===== src/Shared/Sets.antt =====
-- Python's sets of strings, as lists, and `sorted` of them.

use mathlib.Core.Path.{◌≡◌, refl, ap, sym, ◌∙◌, subst}
use mathlib.Core.Logic.{◌⊎◌, ◌↔◌, inl, inr}
use mathlib.Core.Bool.{Bool, true, false, ◌&&◌, ◌||◌}
use mathlib.Core.List.{List, [], ◌∷◌, ◌++◌}
use native.Mathlib.Omega.{arith}
use aiplatform.Shared.Tests.{ltb, ◌==◌, if◌then◌else◌, Bool-cases}
use aiplatform.Shared.Lists.{Text, same_text, same_text-eq, same_text_refl, select, All, Member}

-- `t in xs`
abbrev pub includes : Text → List Text → Bool
includes t [] = false
includes t (x ∷ xs) = same_text t x || includes t xs

pub includes-Member : (t : Text) (xs : List Text) → (includes t xs ≡ true) ↔ Member t xs
includes-Member t xs = (found t xs, listed t xs)
  where
    found : (t : Text) (xs : List Text) → includes t xs ≡ true → Member t xs
    found t [] h = cc
    found t (x ∷ xs) h = elim (Bool-cases (same_text t x)) [
      | inl e ↦ inl (same_text-eq t x e)
      | inr e ↦ inr (found t xs (ground (arith, h, e)))
    ]

    listed : (t : Text) (xs : List Text) → Member t xs → includes t xs ≡ true
    listed t [] m = elim m [ ]
    listed t (x ∷ xs) (inl e) =
        let q : same_text t x ≡ true =
          ap (λ (s : Text). same_text t s) (sym e) ∙ same_text_refl t in
        ground (arith, q)
    listed t (x ∷ xs) (inr m) = ground (arith, listed t xs m)

-- `set(xs)`
unfoldable pub distinct : List Text → List Text
distinct [] = []
distinct (x ∷ xs) = let rest = distinct xs in if includes x rest then rest else x ∷ rest

-- `xs & ys`
abbrev pub intersection : List Text → List Text → List Text
intersection xs ys = select (λ x. includes x ys) xs

-- `xs | ys`
abbrev pub union : List Text → List Text → List Text
union xs ys = distinct (xs ++ ys)

-- The order of strings, by code points.
abbrev pub text_leb : Text → Text → Bool
text_leb [] b = true
text_leb (x ∷ a) [] = false
text_leb (x ∷ a) (y ∷ b) = ltb x y || (x == y && text_leb a b)

unfoldable pub insert_text : Text → List Text → List Text
insert_text x [] = x ∷ []
insert_text x (y ∷ ys) =
    let rest = insert_text x ys in if text_leb x y then x ∷ y ∷ ys else y ∷ rest

-- `sorted(xs)`
unfoldable pub sorted : List Text → List Text
unfolding insert_text
sorted [] = []
sorted (x ∷ xs) = insert_text x (sorted xs)

module _ {A : Type 0} where
  pub Member-append : (z : A) (xs ys : List A) → Member z (xs ++ ys) ↔ (Member z xs ⊎ Member z ys)
  Member-append z xs ys = (split z xs ys, join z xs ys)
    where
      split : (z : A) (xs ys : List A) → Member z (xs ++ ys) → Member z xs ⊎ Member z ys
      split z [] ys m = inr m
      split z (x ∷ xs) ys (inl e) = inl (inl e)
      split z (x ∷ xs) ys (inr m) = elim (split z xs ys m) [ inl h ↦ inl (inr h) | inr h ↦ inr h ]

      join : (z : A) (xs ys : List A) → Member z xs ⊎ Member z ys → Member z (xs ++ ys)
      join z [] ys (inl m) = elim m [ ]
      join z [] ys (inr m) = m
      join z (x ∷ xs) ys (inl (inl e)) = inl e
      join z (x ∷ xs) ys (inl (inr m)) = inr (join z xs ys (inl m))
      join z (x ∷ xs) ys (inr m) = inr (join z xs ys (inr m))

  kept : (p : A → Bool) (x : A) (xs : List A) → p x ≡ true → select p (x ∷ xs) ≡ x ∷ select p xs
  kept p x xs e = rw e refl

  left_out : (p : A → Bool) (x : A) (xs : List A) → p x ≡ false → select p (x ∷ xs) ≡ select p xs
  left_out p x xs e = rw e refl

  pub Member-select :
      (p : A → Bool) (z : A) (xs : List A) → Member z (select p xs) ↔ (Member z xs × (p z ≡ true))
  Member-select p z xs = (from z xs, λ (m, h). into z xs m h)
    where
      from : (z : A) (xs : List A) → Member z (select p xs) → Member z xs × (p z ≡ true)
      from z [] m = elim m [ ]
      from z (x ∷ xs) m = elim (Bool-cases (p x)) [
        | inl e ↦ elim (subst (Member z) (kept p x xs e) m) [
          | inl q ↦ (inl q, ap p q ∙ e)
          | inr n ↦ let (k, h) = from z xs n in (inr k, h)
        ]
        | inr e ↦ let (n, h) = from z xs (subst (Member z) (left_out p x xs e) m) in (inr n, h)
      ]

      into : (z : A) (xs : List A) → Member z xs → p z ≡ true → Member z (select p xs)
      into z [] m h = elim m [ ]
      into z (x ∷ xs) (inl q) h = let e : p x ≡ true = ap p (sym q) ∙ h in rw e (inl q)
      into z (x ∷ xs) (inr m) h = elim (Bool-cases (p x)) [
        | inl e ↦ rw e (inr (into z xs m h))
        | inr e ↦ rw e (into z xs m h)
      ]

distinct_from : (t : Text) (xs : List Text) → Member t (distinct xs) → Member t xs
unfolding distinct
distinct_from t [] m = m
distinct_from t (x ∷ xs) m = elim (Bool-cases (includes x (distinct xs))) [
  | inl e ↦ inr (distinct_from t xs (rw e at m))
  | inr e ↦ elim (rw e at m) [ inl q ↦ inl q | inr n ↦ inr (distinct_from t xs n) ]
]

distinct_into : (t : Text) (xs : List Text) → Member t xs → Member t (distinct xs)
unfolding distinct
distinct_into t [] m = m
distinct_into t (x ∷ xs) m = elim (Bool-cases (includes x (distinct xs))) [
  | inl e ↦ rw e (elim m [
    | inl q ↦
        subst (λ (y : Text). Member y (distinct xs)) (sym q) ((includes-Member x (distinct xs)).0 e)
    | inr n ↦ distinct_into t xs n
  ])
  | inr e ↦ rw e (elim m [ inl q ↦ inl q | inr n ↦ inr (distinct_into t xs n) ])
]

-- A set has the elements of its list.
pub Member-distinct : (t : Text) (xs : List Text) → Member t (distinct xs) ↔ Member t xs
Member-distinct t xs = (distinct_from t xs, distinct_into t xs)

insert_from : (t x : Text) (xs : List Text) → Member t (insert_text x xs) → Member t (x ∷ xs)
unfolding insert_text
insert_from t x [] m = m
insert_from t x (y ∷ ys) m = elim (Bool-cases (text_leb x y)) [
  | inl e ↦ rw e at m
  | inr e ↦ elim (rw e at m) [
    | inl q ↦ inr (inl q)
    | inr n ↦ elim (insert_from t x ys n) [ inl q ↦ inl q | inr k ↦ inr (inr k) ]
  ]
]

insert_into : (t x : Text) (xs : List Text) → Member t (x ∷ xs) → Member t (insert_text x xs)
unfolding insert_text
insert_into t x [] m = m
insert_into t x (y ∷ ys) m = elim (Bool-cases (text_leb x y)) [
  | inl e ↦ rw e m
  | inr e ↦ rw e (elim m [
    | inl q ↦ inr (insert_into t x ys (inl q))
    | inr (inl q) ↦ inl q
    | inr (inr k) ↦ inr (insert_into t x ys (inr k))
  ])
]

sorted_from : (t : Text) (xs : List Text) → Member t (sorted xs) → Member t xs
unfolding sorted
sorted_from t [] m = m
sorted_from t (x ∷ xs) m = elim (insert_from t x (sorted xs) m) [
  | inl q ↦ inl q
  | inr n ↦ inr (sorted_from t xs n)
]

sorted_into : (t : Text) (xs : List Text) → Member t xs → Member t (sorted xs)
unfolding sorted
sorted_into t [] m = m
sorted_into t (x ∷ xs) (inl q) = insert_into t x (sorted xs) (inl q)
sorted_into t (x ∷ xs) (inr n) = insert_into t x (sorted xs) (inr (sorted_into t xs n))

-- Sorting adds and loses nothing.
pub Member-sorted : (t : Text) (xs : List Text) → Member t (sorted xs) ↔ Member t xs
Member-sorted t xs = (sorted_from t xs, sorted_into t xs)

-- An intersection has the elements of both.
pub Member-intersection :
    (t : Text) (xs ys : List Text) → Member t (intersection xs ys) ↔ (Member t xs × Member t ys)
Member-intersection t xs ys =
    let (f, g) = Member-select (λ x. includes x ys) t xs in
    let (f', g') = includes-Member t ys in
    (λ m. let (a, b) = f m in (a, f' b), λ (a, b). g (a, g' b))

module _ {A : Type 0} (P : A → Type 0) where
  pub All-Member : (x : A) (xs : List A) → Member x xs → All P xs → P x
  All-Member x [] m h = elim m [ ]
  All-Member x (y ∷ ys) (inl e) (h, hs) = subst P (sym e) h
  All-Member x (y ∷ ys) (inr m) (h, hs) = All-Member x ys m hs

  pub All-of_Member : (xs : List A) → ((x : A) → Member x xs → P x) → All P xs
  All-of_Member [] h = tt
  All-of_Member (x ∷ xs) h = (h x (inl refl), All-of_Member xs (λ y m. h y (inr m)))

  pub All-append : (xs ys : List A) → All P xs → All P ys → All P (xs ++ ys)
  All-append [] ys hx hy = hy
  All-append (x ∷ xs) ys (h, hx) hy = (h, All-append xs ys hx hy)
