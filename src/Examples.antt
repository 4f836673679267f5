-- ===== src/Examples.antt =====
-- Concrete runs of the model: tests of definitions, and the theorems applied.
mod Prefixes
mod Data
mod Routes
mod Kernel
mod Safety
mod Updates
mod Rules
mod Boot
mod Protocol
mod Tailscale
mod Destinations
mod Desired
mod Claims
