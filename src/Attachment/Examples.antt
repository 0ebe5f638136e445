-- ===== src/Attachment/Examples.antt =====
-- A picture whose extraction crashes, and the theorem applied to it.
use aiplatform.Shared.{◌≡◌, refl, none, some, [], ◌∷◌, ◌++◌, codes}
use aiplatform.Exec.{ok}
use aiplatform.Models.{Attachment}
use aiplatform.State.{World}
use aiplatform.State.Examples.{empty_db, blank}
use aiplatform.Attachment.Service.{
  kind_of, Extractors, crashed, Upload, upload_and_extract, new_attachment, insert_attachment,
}
use aiplatform.Attachment.Uploads.{IsSettled, upload_and_extract-IsSettled}

abbrev broken : Extractors
broken = record {
  upload = λ bytes name mime. ok (codes "key");
  extract = λ kind bytes name mime. crashed (codes "out of memory");
}

abbrev picture : Upload
picture = record {
  file_bytes = 1 ∷ 2 ∷ [];
  filename = codes "a.png";
  mime_type = codes "image/png";
  session_id = none;
  user_id = some (codes "alice");
}

-- One file is there already.
abbrev store : World
store = blank (insert_attachment (new_attachment picture (codes "old") 100) empty_db)

upload_and_extract-IsSettled_example :
    (a : Attachment) × (a.id ≡ 101)
    × (a.storage_key ≡ codes "key")
    × IsSettled broken (kind_of picture.mime_type) picture a
    × ((upload_and_extract broken picture store).0 ≡ ok a.id)
    × ((upload_and_extract broken picture store).1.db.attachments ≡ store.db.attachments ++ a ∷ [])
upload_and_extract-IsSettled_example =
    upload_and_extract-IsSettled broken picture store (codes "key") refl (refl, tt)
