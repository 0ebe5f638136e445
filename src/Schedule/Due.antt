-- ===== src/Schedule/Due.antt =====
-- Which schedules the query of the ticker finds.
use aiplatform.Shared.{
  ℕ, zero, suc, ◌≤◌, ◌≡◌, refl, ap, Bool, true, List, [], ◌∷◌, arith, length, page, select, All,
  Member, Bool-cases, inl, inr, ◌⊎◌, IsSorted, sort_by-All, sort_by-Member, sort_by-IsSorted,
  select-All,
}
use aiplatform.Models.{WorkflowSchedule}
use aiplatform.State.{Db}
use aiplatform.Schedule.Service.{list_due, is_due, next_or_zero, due_limit}

module _ {A : Type 0} where
  page-All : (P : A → Type 0) (n : ℕ) (xs : List A) → All P xs → All P (page n xs)
  page-All P zero xs h = tt
  page-All P (suc n) [] h = tt
  page-All P (suc n) (x ∷ xs) (h, hs) = (h, page-All P n xs hs)

  page-length : (n : ℕ) (xs : List A) → length (page n xs) ≤ n
  page-length zero xs = omega arith
  page-length (suc n) [] = omega arith
  page-length (suc n) (x ∷ xs) = omega (arith, page-length n xs)

  page-IsSorted : (key : A → ℕ) (n : ℕ) (xs : List A) → IsSorted key xs → IsSorted key (page n xs)
  page-IsSorted key zero xs h = tt
  page-IsSorted key (suc n) [] h = tt
  page-IsSorted key (suc n) (x ∷ xs) (b, s) = (page-All _ n xs b, page-IsSorted key n xs s)

  select-Member :
      (p : A → Bool) (x : A) (xs : List A) → Member x xs → p x ≡ true → Member x (select p xs)
  select-Member p x [] m h = elim m [ ]
  select-Member p x (y ∷ ys) (inl e) h = let q : p y ≡ true = cc (h, ap p e) in rw q (inl e)
  select-Member p x (y ∷ ys) (inr m) h = elim (Bool-cases (p y)) [
    | inl e ↦ rw e (inr (select-Member p x ys m h))
    | inr e ↦ rw e (select-Member p x ys m h)
  ]

  bound_of :
      (key : A → ℕ) (b : ℕ) (x : A) (xs : List A)
      → Member x xs
      → All (λ y. b ≤ key y) xs
      → b ≤ key x
  bound_of key b x [] m h = elim m [ ]
  bound_of key b x (y ∷ ys) (inl e) (h, hs) = let q : key x ≡ key y = ap key e in omega arith
  bound_of key b x (y ∷ ys) (inr m) (h, hs) = bound_of key b x ys m hs

  -- An element is on the first page, or the page is full of elements that are not later.
  page_first :
      (key : A → ℕ) (n : ℕ) (x : A) (xs : List A)
      → IsSorted key xs
      → Member x xs
      → Member x (page n xs) ⊎ ((length (page n xs) ≡ n) × All (λ y. key y ≤ key x) (page n xs))
  page_first key zero x xs s m = inr (refl, tt)
  page_first key (suc n) x [] s m = elim m [ ]
  page_first key (suc n) x (y ∷ ys) s (inl e) = inl (inl e)
  page_first key (suc n) x (y ∷ ys) (b, s) (inr m) = elim (page_first key n x ys s m) [
    | inl h ↦ inl (inr h)
    | inr (l, h) ↦ inr (omega arith, (bound_of key (key y) x ys m b, h))
  ]

-- What a poll lists is due at that moment: enabled, not deleted, and its time has come. The list
-- goes by `next_run_at` and holds at most 100 schedules.
pub list_due-IsDue :
    (as_of : ℕ) (d : Db)
    → All (λ s. is_due as_of s ≡ true) (list_due as_of d)
      × IsSorted next_or_zero (list_due as_of d)
      × (length (list_due as_of d) ≤ due_limit)
unfolding list_due
list_due-IsDue as_of d =
    let found = select (is_due as_of) d.workflow_schedules in
    (
      page-All _ due_limit _
          (sort_by-All next_or_zero _ found (select-All (is_due as_of) d.workflow_schedules)),
      page-IsSorted next_or_zero due_limit _ (sort_by-IsSorted next_or_zero found),
      page-length due_limit _,
    )

-- A schedule that is due is on the list of the poll, or the list is full, with 100 schedules none
-- of which became due later than it.
pub list_due_fair :
    (as_of : ℕ) (d : Db) (s : WorkflowSchedule)
    → Member s d.workflow_schedules
    → is_due as_of s ≡ true
    → Member s (list_due as_of d)
      ⊎ ((length (list_due as_of d) ≡ due_limit)
          × All (λ r. next_or_zero r ≤ next_or_zero s) (list_due as_of d))
unfolding list_due
list_due_fair as_of d s m h =
    let found = select (is_due as_of) d.workflow_schedules in
    page_first next_or_zero due_limit s _ (sort_by-IsSorted next_or_zero found)
      (sort_by-Member next_or_zero s found (select-Member (is_due as_of) s _ m h))
