-- ===== src/Service.antt =====
-- internal/service: the services that the protocols share.
pub mod Dispatch
pub mod Notify
pub mod Relay
pub mod Sessions
pub mod Auth
pub mod Mailboxes
