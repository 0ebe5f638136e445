-- ===== src/Engine/Dedupe.antt =====
-- `_dedupe_self_concatenated` of app/agno_runtime/engine.py.
use aiplatform.Shared.{
  ℕ, zero, suc, ◌/◌, ◌%◌, ◌&&◌, List, [], ◌∷◌, Text, ◌==◌, length, page, same_text, is_filled,
  if◌then◌else◌,
}

-- `xs[n:]`
abbrev pub drop {ℓ} : {A : Type ℓ} → ℕ → List A → List A
drop zero xs = xs
drop (suc n) [] = []
drop (suc n) (x ∷ xs) = drop n xs

unfoldable pub dedupe_self_concatenated : Text → Text
dedupe_self_concatenated [] = []
dedupe_self_concatenated (c ∷ t) =
    let s = c ∷ t in
    let half = length s / 2 in
    if length s % 2 == 0
    then (if is_filled (page half s) && same_text (page half s) (drop half s)
        then page half s
        else s)
    else s
