-- ===== src/Update.antt =====
-- internal/update: which release is newer, and what to do with it.
pub mod Version
pub mod Decide
