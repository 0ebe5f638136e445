-- ===== src/Chat/Merge.antt =====
-- How streamed pieces of text become one message: `_merge_text_chunks` of
-- app/agno_runtime/agui_interface.py and `ChatService._merge_content_parts`.
use aiplatform.Shared.{
  ℕ, Bool, false, ◌||◌, not, List, [], ◌∷◌, ◌++◌, Text, contains, is_filled, same_text,
  if◌then◌else◌,
}

-- `s.endswith(t)`
unfoldable pub ends_with : Text → Text → Bool
ends_with [] t = not (is_filled t)
ends_with (c ∷ s) t = same_text (c ∷ s) t || ends_with s t

-- " ", "\n" and "\t"
abbrev pub blanks : List ℕ
blanks = 32 ∷ 10 ∷ 9 ∷ []

abbrev last_is_blank : Text → Bool
last_is_blank [] = false
last_is_blank (c ∷ []) = contains c blanks
last_is_blank (c ∷ d ∷ s) = last_is_blank (d ∷ s)

abbrev first_is_blank : Text → Bool
first_is_blank [] = false
first_is_blank (c ∷ _) = contains c blanks

-- The last two branches of the source, on punctuation and otherwise, do the same.
unfoldable pub merge_text_chunks : Text → Text → Text
unfolding ends_with
merge_text_chunks existing [] = existing
merge_text_chunks [] (c ∷ t) = c ∷ t
merge_text_chunks (e ∷ es) (c ∷ t) =
    if same_text (e ∷ es) (c ∷ t) || ends_with (e ∷ es) (c ∷ t)
    then e ∷ es
    else (if last_is_blank (e ∷ es) || first_is_blank (c ∷ t)
        then (e ∷ es) ++ c ∷ t
        else (e ∷ es) ++ 32 ∷ c ∷ t)

-- The loop of `_merge_content_parts`.
unfoldable pub merge_onto : Text → List Text → Text
unfolding merge_text_chunks
merge_onto merged [] = merged
merge_onto merged (part ∷ parts) = merge_onto (merge_text_chunks merged part) parts

unfoldable pub merge_content_parts : List Text → Text
unfolding merge_onto
merge_content_parts parts = merge_onto [] parts
