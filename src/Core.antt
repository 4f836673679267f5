-- ===== src/Core.antt =====
-- internal/core: what the service keeps between applies.
pub mod Yielded
