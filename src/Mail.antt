-- ===== src/Mail.antt =====
-- The e-mails with search results (latency_lab/directory_email.py).
pub mod Contacts
pub mod Prepare
pub mod Send
pub mod World
pub mod Once
pub mod Destined
pub mod Right
pub mod Addressed
pub mod Saved
mod Tests
