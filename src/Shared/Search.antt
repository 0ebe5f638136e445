-- ===== src/Shared/Search.antt =====
-- What the queries of the list functions find.
use mathlib.Core.Path.{◌≡◌, refl, ap, sym, ◌∙◌, subst}
use mathlib.Core.Bool.{Bool, true, false}
use mathlib.Core.Option
use mathlib.Core.Option.{none, some, Option}
use mathlib.Core.List.{List, [], ◌∷◌, ◌++◌}
use native.Mathlib.Omega.{arith}
use mathlib.Core.Logic.{inl, inr}
use aiplatform.Shared.Tests.{Bool-cases, if◌then◌else◌}
use aiplatform.Shared.Lists.{first_where, update_where, select, All}

module _ {ℓ} {A : Type ℓ} where
  -- What a query finds meets its condition.
  pub first_where-holds :
      (p : A → Bool) (xs : List A) (x : A) → first_where p xs ≡ some x → p x ≡ true
  first_where-holds p [] x h = cc
  first_where-holds p (y ∷ ys) x h = ground (arith, first_where-holds p ys x)

  pub select-All : (p : A → Bool) (xs : List A) → All (λ x. p x ≡ true) (select p xs)
  select-All p [] = tt
  select-All p (x ∷ xs) = ground (arith, select-All p xs)

  -- A row that was appended last is found, and changed, if no row before it fits.
  pub first_where-append :
      (p : A → Bool) (xs : List A) (x : A)
      → All (λ y. p y ≡ false) xs
      → p x ≡ true
      → first_where p (xs ++ x ∷ []) ≡ some x
  first_where-append p [] x h q = rw q
  first_where-append p (y ∷ ys) x (h, hs) q = rw h (first_where-append p ys x hs q)

  pub update_where-append :
      (p : A → Bool) (f : A → A) (xs : List A) (x : A)
      → All (λ y. p y ≡ false) xs
      → p x ≡ true
      → update_where p f (xs ++ x ∷ []) ≡ xs ++ f x ∷ []
  update_where-append p f [] x h q = rw q
  update_where-append p f (y ∷ ys) x (h, hs) q =
      rw h (ap (λ zs. y ∷ zs) (update_where-append p f ys x hs q))

  pub first_where-update_where :
      (p : A → Bool) (f : A → A) (xs : List A) (x : A)
      → All (λ y. p y ≡ false) xs
      → p x ≡ true
      → p (f x) ≡ true
      → first_where p (update_where p f (xs ++ x ∷ [])) ≡ some (f x)
  first_where-update_where p f xs x h q r =
      rw (update_where-append p f xs x h q) (first_where-append p xs (f x) h r)

  -- Rows that an update keeps in the query are found as updated.
  pub first_where_updated :
      (p : A → Bool) (f : A → A) (xs : List A) (x : A)
      → p (f x) ≡ p x
      → first_where p xs ≡ some x
      → first_where p (update_where p f xs) ≡ some (f x)
  first_where_updated p f [] x k h = cc
  first_where_updated p f (y ∷ ys) x k h = elim (Bool-cases (p y)) [
    | inl e ↦
        let q : y ≡ x = cc (rw e at h) in
        let fits : p (f y) ≡ true = ap (λ (z : A). p (f z)) q ∙ k ∙ ap p (sym q) ∙ e in
        rw e (rw fits (ap (λ (z : A). some (f z)) q))
    | inr e ↦ rw e (rw e (first_where_updated p f ys x k (rw e at h)))
  ]

  -- What a query finds after an update that keeps all rows in it or out of it.
  pub first_where_after_update :
      (p q : A → Bool) (f : A → A) (xs : List A)
      → ((x : A) → p (f x) ≡ p x)
      → first_where p (update_where q f xs)
        ≡ Option.map (λ x. if q x then f x else x) (first_where p xs)
  first_where_after_update p q f [] k = refl
  first_where_after_update p q f (x ∷ xs) k = elim (Bool-cases (q x)) [
    | inl e ↦ elim (Bool-cases (p x)) [
      | inl h ↦ let h' : p (f x) ≡ true = k x ∙ h in rw e (rw (h, h') (rw e refl))
      | inr h ↦
          let h' : p (f x) ≡ false = k x ∙ h in
          rw e (rw (h, h') (first_where_after_update p q f xs k))
    ]
    | inr e ↦ elim (Bool-cases (p x)) [
      | inl h ↦ rw e (rw h (rw e refl))
      | inr h ↦ rw e (rw h (first_where_after_update p q f xs k))
    ]
  ]

  -- What holds of all rows holds of the one that a query finds.
  pub All-first_where {κ} :
      (P : A → Type κ) (p : A → Bool) (xs : List A) (x : A)
      → first_where p xs ≡ some x
      → All P xs
      → P x
  All-first_where P p [] x e h = cc
  All-first_where P p (y ∷ ys) x e (h, hs) = elim (Bool-cases (p y)) [
    | inl t ↦ let q : y ≡ x = cc (rw t at e) in subst P q h
    | inr f ↦ All-first_where P p ys x (rw f at e) hs
  ]

  -- A query that finds nothing fits no row.
  pub first_where-none :
      (p : A → Bool) (xs : List A) → first_where p xs ≡ none → All (λ x. p x ≡ false) xs
  first_where-none p [] e = tt
  first_where-none p (x ∷ xs) e = elim (Bool-cases (p x)) [
    | inl t ↦ cc (rw t at e)
    | inr f ↦ (f, first_where-none p xs (rw f at e))
  ]

  pub All-last {κ} : (P : A → Type κ) (xs : List A) (x : A) → All P xs → P x → All P (xs ++ x ∷ [])
  All-last P [] x hs h = (h, tt)
  All-last P (y ∷ ys) x (k, ks) h = (k, All-last P ys x ks h)
