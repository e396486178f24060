-- ===== src/Imap.antt =====
-- internal/imap: the IMAP server.
pub mod Flags
pub mod Store
pub mod Expunge
pub mod Copy
pub mod Listing
pub mod Search
