-- ===== src/Memory/Versions.antt =====
-- The version of a new prompt.
use aiplatform.Shared.{
  ◌≤◌, ◌<◌, ◌≡◌, sym, true, List, [], ◌∷◌, Text, arith, leb, inl, inr, Bool-cases, select, Member,
  Member-select,
}
use mathlib.Core.Path.{subst}
use aiplatform.Models.{Prompt}
use aiplatform.State.{Db}
use aiplatform.Memory.Prompts.{
  insert_version, sort_versions, is_version_of, list_versions, next_of, next_version,
}

-- Inserting a row keeps what is below the next version below it.
insert_version_above :
    (x : Prompt) (xs : List Prompt)
    → (x.version < next_of (insert_version x xs)) × (next_of xs ≤ next_of (insert_version x xs))
unfolding insert_version next_of
insert_version_above x [] = (omega arith, omega arith)
insert_version_above x (y ∷ ys) = elim (Bool-cases (leb y.version x.version)) [
  | inl e ↦ let l : y.version ≤ x.version = ground (arith, e) in rw e (omega arith, omega arith)
  | inr e ↦ let l : x.version < y.version = ground (arith, e) in rw e (omega arith, omega arith)
]

sort_versions_above :
    (p : Prompt) (xs : List Prompt) → Member p xs → p.version < next_of (sort_versions xs)
unfolding sort_versions
sort_versions_above p [] m = elim m [ ]
sort_versions_above p (x ∷ xs) (inl e) =
    subst (λ (q : Prompt). q.version < next_of (insert_version x (sort_versions xs))) (sym e)
      (insert_version_above x (sort_versions xs)).0
sort_versions_above p (x ∷ xs) (inr m) =
    let l = (insert_version_above x (sort_versions xs)).1 in
    omega (arith, l, sort_versions_above p xs m)

-- The version that a new prompt gets is above every version of its code that is not deleted.
pub next_version_above :
    (code : Text) (d : Db) (p : Prompt)
    → Member p d.prompts
    → is_version_of code p ≡ true
    → p.version < next_version code d
unfolding next_version list_versions
next_version_above code d p m h =
    sort_versions_above p (select (is_version_of code) d.prompts)
      ((Member-select (is_version_of code) p d.prompts).1 (m, h))
