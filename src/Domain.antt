-- ===== src/Domain.antt =====
-- internal/domain: the entities that every other part works on.
pub mod Message
pub mod Mailbox
pub mod Webhook
pub mod User
pub mod Token
