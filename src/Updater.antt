-- ===== src/Updater.antt =====
-- internal/updater: the updates that are installed, and the starts that follow.
pub mod Boot
