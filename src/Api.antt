-- ===== src/Api.antt =====
-- internal/api: the HTTP API.
pub mod Rbac
pub mod Users
