-- ===== src/Safety.antt =====
-- internal/safety: what guards an apply, and what undoes it.
pub mod Watchdog
pub mod Protocol
pub mod Panic
pub mod Executor
pub mod LiveRepair
pub mod Guardrails
