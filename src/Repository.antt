-- ===== src/Repository.antt =====
-- internal/repository: what stands between the services and the database.
pub mod Circuit
pub mod Webhooks
pub mod Mailboxes
