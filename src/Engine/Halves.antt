-- ===== src/Engine/Halves.antt =====
-- Which texts `_dedupe_self_concatenated` shortens.
use aiplatform.Shared.{
  ℕ, zero, suc, ◌/◌, ◌%◌, ◌≡◌, refl, sym, ap, ◌∙◌, ◌⊎◌, inl, inr, true, List, [], ◌∷◌, ◌++◌, Text,
  arith, ◌==◌, length, length-append, page, same_text, same_text-eq, same_text_refl, is_filled,
  Bool-cases,
}
use aiplatform.Engine.Dedupe.{drop, dedupe_self_concatenated}

module _ {A : Type 0} where
  page-append : (xs ys : List A) → page (length xs) (xs ++ ys) ≡ xs
  page-append [] ys = refl
  page-append (x ∷ xs) ys = ap (λ (zs : List A). x ∷ zs) (page-append xs ys)

  drop-append : (xs ys : List A) → drop (length xs) (xs ++ ys) ≡ ys
  drop-append [] ys = refl
  drop-append (x ∷ xs) ys = drop-append xs ys

  append-page-drop : (n : ℕ) (xs : List A) → page n xs ++ drop n xs ≡ xs
  append-page-drop zero xs = refl
  append-page-drop (suc n) [] = refl
  append-page-drop (suc n) (x ∷ xs) = ap (λ (zs : List A). x ∷ zs) (append-page-drop n xs)

-- The two halves of a text that is some text twice.
double-half : (h : Text) → length (h ++ h) / 2 ≡ length h
double-half h = omega (arith, length-append {0} h h)

double-even : (h : Text) → (length (h ++ h) % 2 == 0) ≡ true
double-even h = let e : length (h ++ h) % 2 ≡ 0 = omega (arith, length-append {0} h h) in rw e refl

halves_same :
    (h : Text)
    → (page (length (h ++ h) / 2) (h ++ h) ≡ h) × (drop (length (h ++ h) / 2) (h ++ h) ≡ h)
halves_same h = (rw (double-half h) (page-append h h), rw (double-half h) (drop-append h h))

dedupe-double : (h : Text) → dedupe_self_concatenated (h ++ h) ≡ h
unfolding dedupe_self_concatenated
dedupe-double [] = refl
dedupe-double (c ∷ h) =
    rw (
      double-even (c ∷ h),
      (halves_same (c ∷ h)).0,
      (halves_same (c ∷ h)).1,
      same_text_refl (c ∷ h),
    )

shorter : (p s : Text) → page (length s / 2) s ≡ p → drop (length s / 2) s ≡ p → s ≡ p ++ p
shorter p s a b = sym (append-page-drop (length s / 2) s) ∙ cc (a, b)

dedupe-cases :
    (t : Text)
    → (t ≡ dedupe_self_concatenated t ++ dedupe_self_concatenated t)
      ⊎ (dedupe_self_concatenated t ≡ t)
unfolding dedupe_self_concatenated
dedupe-cases [] = inr refl
dedupe-cases (c ∷ t) =
    let s : Text = c ∷ t in
    let half = length s / 2 in
    elim (Bool-cases (length s % 2 == 0)) [
      | inr odd ↦ inr (rw odd)
      | inl even ↦ elim (Bool-cases (is_filled (page half s))) [
        | inr empty ↦ inr (rw (even, empty))
        | inl filled ↦ elim (Bool-cases (same_text (page half s) (drop half s))) [
          | inr differ ↦ inr (rw (even, filled, differ))
          | inl same ↦ inl (
              rw (even, filled, same)
                (shorter (page half s) s refl
                  (sym (same_text-eq (page half s) (drop half s) same))))
        ]
      ]
    ]

-- A text that is some text twice becomes that text once, and a text that changes at all was what
-- is left of it twice.
pub dedupe_halves :
    ((h : Text) → dedupe_self_concatenated (h ++ h) ≡ h)
    × ((t : Text)
        → (t ≡ dedupe_self_concatenated t ++ dedupe_self_concatenated t)
          ⊎ (dedupe_self_concatenated t ≡ t))
dedupe_halves = (dedupe-double, dedupe-cases)
