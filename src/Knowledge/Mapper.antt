-- ===== src/Knowledge/Mapper.antt =====
-- app/knowledge/mapper.py: the chunks of a response, and their text for the prompt.
use aiplatform.Shared.{
  ℕ, zero, suc, Bool, true, false, ◌&&◌, ◌||◌, Option, none, some, List, [], ◌∷◌, ◌++◌, Text, codes,
  is_filled, if◌then◌else◌,
}
use aiplatform.Models.{Json, Items, Fields}
use aiplatform.Webhook.Input.{get_field}
use aiplatform.Knowledge.Platform.{Platform}

-- `_CONTENT_KEYS` and the others
abbrev pub content_keys : List Text
content_keys =
    codes "content"
    ∷ codes "text"
    ∷ codes "chunk"
    ∷ codes "chunk_text"
    ∷ codes "passage"
    ∷ codes "body"
    ∷ codes "answer"
    ∷ []

abbrev pub id_keys : List Text
id_keys = codes "id" ∷ codes "chunk_id" ∷ codes "chunkId" ∷ codes "_id" ∷ []

abbrev pub title_keys : List Text
title_keys =
    codes "document_title"
    ∷ codes "documentTitle"
    ∷ codes "title"
    ∷ codes "document_name"
    ∷ codes "source"
    ∷ codes "filename"
    ∷ codes "file_name"
    ∷ []

abbrev pub page_keys : List Text
page_keys = codes "page" ∷ codes "page_number" ∷ codes "pageNumber" ∷ []

abbrev pub score_keys : List Text
score_keys = codes "score" ∷ codes "similarity" ∷ codes "relevance_score" ∷ []

abbrev pub list_keys : List Text
list_keys =
    codes "results"
    ∷ codes "chunks"
    ∷ codes "documents"
    ∷ codes "items"
    ∷ codes "hits"
    ∷ codes "matches"
    ∷ codes "data"
    ∷ []

-- A key that is there with a value that is not None.
unfoldable pub get_present : Text → Fields → Option Json
unfolding get_field
get_present k d = elim (get_field k d) [ some Json.null ↦ none | some v ↦ some v | none ↦ none ]

unfoldable pub first_present : List Text → Fields → Option Json
unfolding get_present
first_present [] d = none
first_present (k ∷ ks) d = elim (get_present k d) [ some v ↦ some v | none ↦ first_present ks d ]

abbrev pub or_items : Items → Items → Items
or_items Items.no_items rest = rest
or_items (Items.item v vs) rest = Items.item v vs

-- The loop over `_LIST_KEYS`; `inside` is the call one level deeper.
unfoldable pub find_in : (Json → Items) → List Text → Fields → Items
unfolding get_present
find_in inside [] d = Items.no_items
find_in inside (k ∷ ks) d = elim (get_present k d) [
  | none ↦ find_in inside ks d
  | some v ↦ or_items (inside v) (find_in inside ks d)
]

-- The number is that of the levels that are left; the source starts with 5 (depth 0 to 4).
unfoldable pub find_item_list : ℕ → Json → Items
unfolding find_in
find_item_list zero node = Items.no_items
find_item_list (suc n) (Json.array vs) = vs
find_item_list (suc n) (Json.object d) = find_in (find_item_list n) list_keys d
find_item_list (suc n) node = Items.no_items

pub record KnowledgeChunk : Type 0 where
  pub content : Text
  pub chunk_id : Option Text
  pub document_title : Option Text
  pub page : Option Json

-- A field `str | None`: pydantic takes a string and nothing else for one.
pub data StringField : Type 0 where
  valid : Option Text → StringField
  invalid : StringField

abbrev pub string_field : Option Json → StringField
string_field none = valid none
string_field (some (Json.string t)) = valid (some t)
string_field (some _) = invalid

abbrev pub accepted : (Json → Bool) → Option Json → Bool
accepted test none = true
accepted test (some v) = test v

abbrev pub chunk_of : Text → StringField → StringField → Option Json → Bool → Option KnowledgeChunk
chunk_of content (valid chunk_id) (valid title) page true =
    some (record { content = content; chunk_id = chunk_id; document_title = title; page = page })
chunk_of content (valid chunk_id) (valid title) page false = none
chunk_of content (valid chunk_id) invalid page numbers = none
chunk_of content invalid title page numbers = none

-- `KnowledgeChunk(...)`, unless its validation raises.
unfoldable pub make_chunk : Platform → Json → Fields → Option KnowledgeChunk
unfolding first_present
make_chunk p content d =
    chunk_of (p.str_of content) (string_field (first_present id_keys d))
      (string_field (first_present title_keys d)) (first_present page_keys d)
      (accepted p.is_page (first_present page_keys d)
        && accepted p.is_score (first_present score_keys d))

-- What the loop does with an item: it passes it over, or makes a chunk of it.
pub data Parsed : Type 0 where
  skipped : Parsed
  made : Option KnowledgeChunk → Parsed

unfoldable pub parse_fields : Platform → Fields → Parsed
unfolding first_present make_chunk
parse_fields p d = elim (first_present content_keys d) [
  | none ↦ skipped
  | some v ↦ if p.is_true v then made (make_chunk p v d) else skipped
]

unfoldable pub parse_item : Platform → Json → Parsed
unfolding parse_fields
parse_item p (Json.object d) = parse_fields p d
parse_item p v = skipped

abbrev pub join_parsed : Parsed → Option (List KnowledgeChunk) → Option (List KnowledgeChunk)
join_parsed skipped rest = rest
join_parsed (made none) rest = none
join_parsed (made (some c)) none = none
join_parsed (made (some c)) (some cs) = some (c ∷ cs)

-- `none` is a ValidationError.
unfoldable pub parse_items : Platform → Items → Option (List KnowledgeChunk)
unfolding parse_item
parse_items p Items.no_items = some []
parse_items p (Items.item v vs) = join_parsed (parse_item p v) (parse_items p vs)

unfoldable pub parse_search_response : Platform → Json → Option (List KnowledgeChunk)
unfolding find_item_list parse_items
parse_search_response p raw = parse_items p (find_item_list 5 raw)

abbrev pub titled : Option Text → List Text
titled none = []
titled (some t) = if is_filled t then (codes "Document: " ++ t) ∷ [] else []

abbrev pub paged : Platform → Option Json → List Text
paged p none = []
paged p (some v) = (codes "Page: " ++ p.str_of v) ∷ []

abbrev pub has_id : KnowledgeChunk → Bool
has_id c = elim c.chunk_id [ none ↦ false | some t ↦ is_filled t ]

abbrev pub identified : Option Text → List Text
identified none = []
identified (some t) = if is_filled t then (codes "Ma doan (chunk_id): " ++ t) ∷ [] else []

abbrev pub dashes : Text
dashes = codes "----------------------------------------"

unfoldable pub chunk_sections : Platform → KnowledgeChunk → List Text
chunk_sections p c =
    titled c.document_title
    ++ (paged p c.page ++ (p.strip c.content ∷ (identified c.chunk_id ++ dashes ∷ [])))

unfoldable pub all_sections : Platform → List KnowledgeChunk → List Text
unfolding chunk_sections
all_sections p [] = []
all_sections p (c ∷ cs) = chunk_sections p c ++ all_sections p cs

abbrev pub any_id : List KnowledgeChunk → Bool
any_id [] = false
any_id (c ∷ cs) = has_id c || any_id cs

-- `"\n".join(lines)`
unfoldable pub join_lines : List Text → Text
join_lines [] = []
join_lines (l ∷ []) = l
join_lines (l ∷ m ∷ ls) = l ++ 10 ∷ join_lines (m ∷ ls)

abbrev source_note : Text
source_note =
    codes "Neu nguoi dung yeu cau xem/tai tai lieu goc cua mot doan, hay goi tool "
    ++ codes "get_document_source voi chunk_id tuong ung o tren de lay duong dan chinh xac - "
    ++ codes "khong tu bia duong dan tai lieu."

unfoldable pub render_context : Platform → List KnowledgeChunk → Text
unfolding all_sections join_lines
render_context p [] = []
render_context p (c ∷ cs) = join_lines (
    codes "Knowledge Context"
    ∷ dashes
    ∷ (all_sections p (c ∷ cs) ++ (if any_id (c ∷ cs) then source_note ∷ [] else [])))
