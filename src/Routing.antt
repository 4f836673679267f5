-- ===== src/Routing.antt =====
-- internal/routing: what the routing engine computes from prefixes and routes.
pub mod Aggregate
pub mod Nets
pub mod Keys
pub mod Plan
pub mod Simulate
pub mod Verify
pub mod Conflict
pub mod Beside
pub mod RulesBeside
pub mod Unclaimed
pub mod Tailscale
pub mod Destinations
pub mod TunnelRoutes
pub mod Desired
