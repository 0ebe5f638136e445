-- ===== src/Attachment/Uploads.antt =====
-- What an upload leaves behind.
use aiplatform.Shared.{
  ◌≡◌, refl, sym, ap, ◌∙◌, false, some, [], ◌∷◌, ◌++◌, Text, ◌==◌, ==-refl, All, codes,
  update_where-append,
}
use aiplatform.Exec.{Result, ok}
use aiplatform.Models.{Attachment, AttachmentStatus, AttachmentKind}
use aiplatform.State.{Db, World}
use aiplatform.Attachment.Service.{
  Extraction, extracted, refused, crashed, Extractors, Upload, new_attachment, settled,
  extraction_of, kind_of, extract_stored, upload_and_extract,
}

-- READY with the text that the extractor found, or FAILED with what it refused or crashed with.
abbrev pub Shows : Extraction → Attachment → Type 0
Shows (extracted t) a = (a.status ≡ AttachmentStatus.ready) × (a.extracted_text ≡ some t)
Shows (refused m) a = (a.status ≡ AttachmentStatus.failed) × (a.error_message ≡ some m)
Shows (crashed m) a = (a.status ≡ AttachmentStatus.failed) × (a.error_message ≡ some m)

-- A file of one of the four known kinds shows what the extractor of its kind gave; any other file
-- is FAILED with an error.
abbrev pub IsSettled : Extractors → AttachmentKind → Upload → Attachment → Type 0
IsSettled x AttachmentKind.other u a =
    (a.status ≡ AttachmentStatus.failed) × (m : Text) × (a.error_message ≡ some m)
IsSettled x kind u a = Shows (x.extract kind u.file_bytes u.filename u.mime_type) a

settled-Shows : (e : Extraction) (a : Attachment) → Shows e (settled e a)
settled-Shows (extracted t) a = (refl, refl)
settled-Shows (refused m) a = (refl, refl)
settled-Shows (crashed m) a = (refl, refl)

settled-IsSettled :
    (x : Extractors) (kind : AttachmentKind) (u : Upload) (a : Attachment)
    → IsSettled x kind u (settled (extraction_of x kind u.file_bytes u.filename u.mime_type) a)
unfolding extraction_of
settled-IsSettled x AttachmentKind.image u a =
    settled-Shows (x.extract AttachmentKind.image u.file_bytes u.filename u.mime_type) a
settled-IsSettled x AttachmentKind.pdf u a =
    settled-Shows (x.extract AttachmentKind.pdf u.file_bytes u.filename u.mime_type) a
settled-IsSettled x AttachmentKind.docx u a =
    settled-Shows (x.extract AttachmentKind.docx u.file_bytes u.filename u.mime_type) a
settled-IsSettled x AttachmentKind.xlsx u a =
    settled-Shows (x.extract AttachmentKind.xlsx u.file_bytes u.filename u.mime_type) a
settled-IsSettled x AttachmentKind.other u a =
    (refl, codes "Không hỗ trợ loại file: " ++ u.mime_type, refl)

abbrev pub IdsFresh : Db → Type 0
IdsFresh d = All (λ (a : Attachment). (a.id == d.next_id) ≡ false) d.attachments

module _ (x : Extractors) (u : Upload) (w : World) where
  abbrev settled_row : Text → Attachment
  settled_row key =
      settled (extraction_of x (kind_of u.mime_type) u.file_bytes u.filename u.mime_type)
        (new_attachment u key w.db.next_id)

  settled_id :
      (e : Extraction) (a : Attachment)
      → ((settled e a).id ≡ a.id) × ((settled e a).storage_key ≡ a.storage_key)
  settled_id (extracted t) a = (refl, refl)
  settled_id (refused m) a = (refl, refl)
  settled_id (crashed m) a = (refl, refl)

  stored_rows :
      (key : Text)
      → IdsFresh w.db
      → (extract_stored x u (ok key) w).1.db.attachments ≡ w.db.attachments ++ settled_row key ∷ []
  unfolding extract_stored
  stored_rows key fresh =
      update_where-append (λ (a : Attachment). a.id == w.db.next_id)
        (settled (extraction_of x (kind_of u.mime_type) u.file_bytes u.filename u.mime_type))
        w.db.attachments (new_attachment u key w.db.next_id) fresh (==-refl w.db.next_id)

  stored_answer : (key : Text) → (extract_stored x u (ok key) w).0 ≡ ok (settled_row key).id
  unfolding extract_stored
  stored_answer key = ap ok (
      sym
        (settled_id (extraction_of x (kind_of u.mime_type) u.file_bytes u.filename u.mime_type)
          (new_attachment u key w.db.next_id)).0)

  -- A file that was stored has one new row behind the others, which stay as they are. If the file
  -- is of one of the four known kinds, the row is READY with the text that the extractor of this
  -- kind found, or FAILED with the error that it refused the file or crashed with; any other file's
  -- row is FAILED with an error. The row is never left in PROCESSING.
  -- No earlier row may have the new identifier.
  pub upload_and_extract-IsSettled :
      (key : Text)
      → x.upload u.file_bytes u.filename u.mime_type ≡ ok key
      → IdsFresh w.db
      → (a : Attachment) × (a.id ≡ w.db.next_id)
        × (a.storage_key ≡ key)
        × IsSettled x (kind_of u.mime_type) u a
        × ((upload_and_extract x u w).0 ≡ ok a.id)
        × ((upload_and_extract x u w).1.db.attachments ≡ w.db.attachments ++ a ∷ [])
  unfolding upload_and_extract
  upload_and_extract-IsSettled key stored fresh =
      let e = extraction_of x (kind_of u.mime_type) u.file_bytes u.filename u.mime_type in
      let a = new_attachment u key w.db.next_id in
      (
        settled_row key,
        (settled_id e a).0,
        (settled_id e a).1,
        settled-IsSettled x (kind_of u.mime_type) u a,
        ap (λ (r : Result Text). (extract_stored x u r w).0) stored ∙ stored_answer key,
        ap (λ (r : Result Text). (extract_stored x u r w).1.db.attachments) stored
            ∙ stored_rows key fresh,
      )
