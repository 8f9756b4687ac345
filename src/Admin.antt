-- ===== src/Admin.antt =====
-- internal/admin/server.go: the administration interface.
pub mod Update
pub mod Guard
pub mod Handlers
pub mod Refresh
