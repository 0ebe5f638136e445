-- ===== src/Attachment/Service.antt =====
-- app/attachments/service.py. The store and the extractors are parameters.
use aiplatform.Shared.{
  ℕ, Bool, true, false, Option, none, some, List, [], ◌∷◌, ◌++◌, Text, codes, ◌==◌, length,
  contains, first_where, select, update_where, is_filled, if◌then◌else◌,
}
use aiplatform.Exec.{Result, ok, err, Exec}
use aiplatform.Models.{Attachment, AttachmentStatus, AttachmentKind}
use aiplatform.State.{Db, World, change}
use aiplatform.Engine.Actions.{get_key}

-- An extraction: its text, an error that it reports, or an exception.
pub data Extraction : Type 0 where
  extracted : Text → Extraction
  refused : Text → Extraction
  crashed : Text → Extraction

pub record Extractors : Type 0 where
  -- The key under which the store keeps the bytes, or an exception.
  pub upload : Text → Text → Text → Result Text
  pub extract : AttachmentKind → Text → Text → Text → Extraction

abbrev pub kind_by_mime : List (Text × AttachmentKind)
kind_by_mime =
    (codes "image/png", AttachmentKind.image)
    ∷ (codes "image/jpeg", AttachmentKind.image)
    ∷ (codes "image/jpg", AttachmentKind.image)
    ∷ (codes "application/pdf", AttachmentKind.pdf)
    ∷ (
      codes "application/vnd.openxmlformats-officedocument.wordprocessingml.document",
      AttachmentKind.docx,
    )
    ∷ (
      codes "application/vnd.openxmlformats-officedocument.spreadsheetml.sheet",
      AttachmentKind.xlsx,
    )
    ∷ []

unfoldable pub kind_of : Text → AttachmentKind
kind_of mime_type = elim (get_key mime_type kind_by_mime) [
  | none ↦ AttachmentKind.other
  | some k ↦ k
]

-- What becomes of the row: its status, its text and its error.
abbrev pub settled : Extraction → Attachment → Attachment
settled (extracted t) a = record a { status = AttachmentStatus.ready; extracted_text = some t }
settled (refused m) a = record a { status = AttachmentStatus.failed; error_message = some m }
settled (crashed m) a = record a { status = AttachmentStatus.failed; error_message = some m }

abbrev unsupported : Text → Extraction
unsupported mime_type = refused (codes "Không hỗ trợ loại file: " ++ mime_type)

-- Only the four known kinds have an extractor.
unfoldable pub extraction_of : Extractors → AttachmentKind → Text → Text → Text → Extraction
extraction_of x AttachmentKind.other bytes filename mime_type = unsupported mime_type
extraction_of x kind bytes filename mime_type = x.extract kind bytes filename mime_type

pub record Upload : Type 0 where
  pub file_bytes : Text
  pub filename : Text
  pub mime_type : Text
  pub session_id : Option ℕ
  pub user_id : Option Text

abbrev pub new_attachment : Upload → Text → ℕ → Attachment
new_attachment u key id = record {
  id = id;
  session_id = u.session_id;
  user_id = u.user_id;
  filename = u.filename;
  mime_type = u.mime_type;
  kind = kind_of u.mime_type;
  size_bytes = length u.file_bytes;
  storage_key = key;
  status = AttachmentStatus.processing;
  extracted_text = none;
  error_message = none;
}

-- `self.repo.create(...)`
abbrev pub insert_attachment : Attachment → Db → Db
insert_attachment a d = record d {
  next_id = ℕ.suc d.next_id;
  attachments = d.attachments ++ a ∷ [];
}

abbrev pub save_attachment : (Attachment → Attachment) → ℕ → Db → Db
save_attachment f id d = record d { attachments = update_where (λ a. a.id == id) f d.attachments }

-- Once the bytes are stored.
unfoldable pub extract_stored : Extractors → Upload → Result Text → Exec World ℕ
unfolding kind_of extraction_of
extract_stored x u (err e) w = (err e, w)
extract_stored x u (ok key) w =
    let id = w.db.next_id in
    let kind = kind_of u.mime_type in
    let w₁ = change (insert_attachment (new_attachment u key id)) w in
    (
      ok id,
      change
          (save_attachment (settled (extraction_of x kind u.file_bytes u.filename u.mime_type)) id)
          w₁,
    )

unfoldable pub upload_and_extract : Extractors → Upload → Exec World ℕ
unfolding extract_stored
upload_and_extract x u = extract_stored x u (x.upload u.file_bytes u.filename u.mime_type)

-- `get_many`, and the dict over its rows.
unfoldable pub get_many : List ℕ → Db → List Attachment
get_many [] d = []
get_many (i ∷ is) d = select (λ a. contains a.id (i ∷ is)) d.attachments

abbrev pub status_text : AttachmentStatus → Text
status_text AttachmentStatus.uploaded = codes "UPLOADED"
status_text AttachmentStatus.processing = codes "PROCESSING"
status_text AttachmentStatus.ready = codes "READY"
status_text AttachmentStatus.failed = codes "FAILED"

abbrev is_ready : AttachmentStatus → Bool
is_ready AttachmentStatus.ready = true
is_ready _ = false

-- The text of a row that can be used.
abbrev pub usable_text : Attachment → Option Text
usable_text a = elim a.extracted_text [
  | none ↦ none
  | some t ↦ if is_ready a.status then (if is_filled t then some t else none) else none
]

-- `show` is `str` of an identifier, `strip` is `str.strip`.
abbrev pub missing_section : (ℕ → Text) → ℕ → Text
missing_section show id =
    codes "[File đính kèm " ++ (show id ++ codes ": KHÔNG TỒN TẠI trong hệ thống]")

abbrev pub unreadable_section : Attachment → Text
unreadable_section a =
    codes "[File đính kèm '"
    ++ (a.filename
        ++ (codes "': KHÔNG đọc được nội dung (trạng thái: "
            ++ (status_text a.status
                ++ (codes "). TUYỆT ĐỐI KHÔNG được tự suy đoán, bịa nội dung, hoặc tìm kiếm "
                    ++ (codes "tài liệu khác thay thế cho file này. Hãy báo với người dùng rằng "
                        ++ codes "file chưa xử lý được và đề nghị họ tải lại.")))))

abbrev pub readable_section : (Text → Text) → Attachment → Text → Text
readable_section strip a t =
    codes "[File đính kèm '" ++ (a.filename ++ (codes "']" ++ 10 ∷ strip t))

abbrev pub section_of : (ℕ → Text) → (Text → Text) → ℕ → Option Attachment → Text
section_of show strip id none = missing_section show id
section_of show strip id (some a) = elim (usable_text a) [
  | none ↦ unreadable_section a
  | some t ↦ readable_section strip a t
]

unfoldable pub sections_of : (ℕ → Text) → (Text → Text) → List Attachment → List ℕ → List Text
sections_of show strip rows [] = []
sections_of show strip rows (id ∷ ids) =
    section_of show strip id (first_where (λ a. a.id == id) rows) ∷ sections_of show strip rows ids

-- `"\n\n".join(sections)`
abbrev pub blocks : List Text → Text
blocks [] = []
blocks (t ∷ []) = t
blocks (t ∷ u ∷ ts) = t ++ 10 ∷ 10 ∷ blocks (u ∷ ts)

unfoldable pub render_for_prompt : (ℕ → Text) → (Text → Text) → List ℕ → Db → Text
unfolding get_many sections_of
render_for_prompt show strip [] d = []
render_for_prompt show strip (id ∷ ids) d =
    codes "=== NGỮ CẢNH FILE NGƯỜI DÙNG VỪA ĐÍNH KÈM (KHÔNG PHẢI Knowledge Base) ==="
    ++ 10
      ∷ (blocks (sections_of show strip (get_many (id ∷ ids) d) (id ∷ ids))
          ++ 10 ∷ codes "=== HẾT NGỮ CẢNH FILE ĐÍNH KÈM ===")
