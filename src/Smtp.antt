-- ===== src/Smtp.antt =====
-- internal/smtp: the SMTP server.
pub mod Reply
pub mod Window
pub mod RateLimit
pub mod Address
pub mod Session
pub mod Connection
pub mod Storage
