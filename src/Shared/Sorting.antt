-- ===== src/Shared/Sorting.antt =====
-- Sorting by a number, stable, as Python's `sorted(xs, key=...)` and SQL's `ORDER BY` are used.
use Prim.Native.Nat.{ℕ, ◌≤◌}
use mathlib.Core.Logic.{inl, inr}
use mathlib.Core.Path.{◌≡◌, refl, ap, ◌∙◌}
use mathlib.Core.Bool.{true}
use mathlib.Core.List.{List, [], ◌∷◌}
use native.Mathlib.Omega.{arith}
use aiplatform.Shared.Tests.{leb, if◌then◌else◌, Bool-cases}
use aiplatform.Shared.Lists.{All, Member}

module _ {A : Type 0} (key : A → ℕ) where
  unfoldable pub insert_by : A → List A → List A
  insert_by x [] = x ∷ []
  insert_by x (y ∷ ys) =
      let rest = insert_by x ys in if leb (key x) (key y) then x ∷ y ∷ ys else y ∷ rest

  unfoldable pub sort_by : List A → List A
  unfolding insert_by
  sort_by [] = []
  sort_by (x ∷ xs) = insert_by x (sort_by xs)

  -- Each key is at most all later ones.
  abbrev pub IsSorted : List A → Type 0
  IsSorted [] = Unit
  IsSorted (x ∷ xs) = All (λ y. key x ≤ key y) xs × IsSorted xs

  insert_by-Member : (z x : A) (xs : List A) → Member z (x ∷ xs) → Member z (insert_by x xs)
  unfolding insert_by
  insert_by-Member z x [] m = m
  insert_by-Member z x (y ∷ ys) m = elim (Bool-cases (leb (key x) (key y))) [
    | inl e ↦ rw e m
    | inr e ↦ rw e (elim m [
      | inl h ↦ inr (insert_by-Member z x ys (inl h))
      | inr (inl h) ↦ inl h
      | inr (inr h) ↦ inr (insert_by-Member z x ys (inr h))
    ])
  ]

  -- Nothing is lost.
  pub sort_by-Member : (z : A) (xs : List A) → Member z xs → Member z (sort_by xs)
  unfolding sort_by
  sort_by-Member z [] m = elim m [ ]
  sort_by-Member z (x ∷ xs) (inl h) = insert_by-Member z x (sort_by xs) (inl h)
  sort_by-Member z (x ∷ xs) (inr m) =
      insert_by-Member z x (sort_by xs) (inr (sort_by-Member z xs m))

  module _ {κ} (P : A → Type κ) where
    insert_by-All : (x : A) (xs : List A) → P x → All P xs → All P (insert_by x xs)
    unfolding insert_by
    insert_by-All x [] h hs = (h, tt)
    insert_by-All x (y ∷ ys) h (k, ks) = elim (Bool-cases (leb (key x) (key y))) [
      | inl e ↦ rw e (h, (k, ks))
      | inr e ↦ rw e (k, insert_by-All x ys h ks)
    ]

    -- Nothing is added.
    pub sort_by-All : (xs : List A) → All P xs → All P (sort_by xs)
    unfolding sort_by
    sort_by-All [] h = tt
    sort_by-All (x ∷ xs) (h, hs) = insert_by-All x (sort_by xs) h (sort_by-All xs hs)

  weaken_bound : (a b : ℕ) (xs : List A) → a ≤ b → All (λ y. b ≤ key y) xs → All (λ y. a ≤ key y) xs
  weaken_bound a b [] l h = tt
  weaken_bound a b (x ∷ xs) l (h, hs) = (omega arith, weaken_bound a b xs l hs)

  insert_by-IsSorted : (x : A) (xs : List A) → IsSorted xs → IsSorted (insert_by x xs)
  unfolding insert_by
  insert_by-IsSorted x [] h = (tt, tt)
  insert_by-IsSorted x (y ∷ ys) (b, s) = elim (Bool-cases (leb (key x) (key y))) [
    | inl e ↦
        let l : key x ≤ key y = ground (arith, e) in
        rw e ((l, weaken_bound (key x) (key y) ys l b), (b, s))
    | inr e ↦
        let l : key y ≤ key x = ground (arith, e) in
        rw e (insert_by-All (λ z. key y ≤ key z) x ys l b, insert_by-IsSorted x ys s)
  ]

  pub sort_by-IsSorted : (xs : List A) → IsSorted (sort_by xs)
  unfolding sort_by
  sort_by-IsSorted [] = tt
  sort_by-IsSorted (x ∷ xs) = insert_by-IsSorted x (sort_by xs) (sort_by-IsSorted xs)

  insert_by_below : (x : A) (xs : List A) → All (λ y. key x ≤ key y) xs → insert_by x xs ≡ x ∷ xs
  unfolding insert_by
  insert_by_below x [] h = refl
  insert_by_below x (y ∷ ys) (h, hs) =
      let e : leb (key x) (key y) ≡ true = ground (arith, h) in rw e refl

  -- A list that is sorted stays as it is.
  pub sort_by_sorted : (xs : List A) → IsSorted xs → sort_by xs ≡ xs
  unfolding sort_by
  sort_by_sorted [] h = refl
  sort_by_sorted (x ∷ xs) (h, hs) = ap (insert_by x) (sort_by_sorted xs hs) ∙ insert_by_below x xs h
