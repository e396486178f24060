-- ===== src/Jmap.antt =====
-- internal/jmap: the JMAP server.
pub mod Threading
pub mod Dispatcher
