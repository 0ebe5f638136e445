-- ===== src/Attachment.antt =====
-- app/attachments: files that users attach to a chat. `Service` stores them and writes their text
-- into a prompt; the other children prove what they guarantee.
pub mod Service
pub mod Uploads
mod Examples
