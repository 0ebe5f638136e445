-- ===== src/Models/Skills.antt =====
-- app/models/skill.py and app/models/attachment.py
use aiplatform.Shared.{ℕ, Bool, Option, Text}
use aiplatform.Models.Webhooks.{Fields}

pub data SkillType : Type 0 where
  mcp workflow prompt custom knowledge ui : SkillType

pub record Skill : Type 0 where
  pub id : ℕ
  pub code : Text
  pub skill_type : SkillType
  pub config : Option Fields
  pub deleted : Bool

pub data AttachmentStatus : Type 0 where
  uploaded processing ready failed : AttachmentStatus

pub data AttachmentKind : Type 0 where
  image pdf docx xlsx other : AttachmentKind

pub record Attachment : Type 0 where
  pub id : ℕ
  pub session_id : Option ℕ
  pub user_id : Option Text
  pub filename : Text
  pub mime_type : Text
  pub kind : AttachmentKind
  pub size_bytes : ℕ
  pub storage_key : Text
  pub status : AttachmentStatus
  pub extracted_text : Option Text
  pub error_message : Option Text
