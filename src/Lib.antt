-- ===== src/Lib.antt =====
-- RiftRoute decides which traffic goes around a VPN, and keeps the operating system's routing table
-- to that decision. The routing engine (internal/routing) computes the desired routes from prefixes,
-- compares them with the owned ones that the kernel still holds, and plans the difference together
-- with its inverse. The safety layer (internal/safety) refuses dangerous plans (guardrails), applies
-- a plan as one unit (executor) under a protocol with a journal and a time on probation (apply), undoes
-- it when the connection is lost (watchdog) or after a crash, removes everything on a panic, and stops
-- putting back a route that another program keeps removing (live repair). The store (internal/store)
-- keeps which routes are owned, and the journal. The service (internal/core) records
-- what gave way to tunnels and puts it back; the updater asks internal/update whether a release is to
-- be installed, and guards the first starts of an update.
--
-- The files, and the code that each models:
--   Base, Base/*: names and lemmas that the rest shares; no code of the repository.
--   Netip, Netip/*: the part of Go's net/netip that the engine computes with, and the lemmas on
--     blocks, siblings and halves. Netip/Halves.antt also has `halves` of internal/routing/tunnels.go.
--     Netip/Syntax.antt: the parsers and printers of net/netip, a parameter of what uses them.
--   Domain: the types of internal/domain.
--   Routing/Aggregate: `Aggregate`, `mergeOnce` and `sortPrefixes` of internal/routing/aggregate.go.
--   Routing/Nets: `within`, `outsideTunnels`, `aroundTunnels` and `subtractNets`.
--   Routing/Keys: `RouteKey`, `dstKey` and `RuleKey`.
--   Routing/Plan: `Reconcile`, `invert`, `DeleteRoutePlan` and `ReplaceRoutePlan` of
--     internal/routing/engine.go. Plan/Kernel.antt is the abstract kernel of the comments there: one
--     route per destination, an add to a taken destination without effect.
--   Routing/Simulate: `Simulate` and `Drift` of internal/routing/simulate.go.
--   Routing/Verify: `VerifyRoutes`, `IndexInstalled` and their keys, in internal/routing/tunnels.go.
--   Routing/Conflict: `DetectConflicts` of internal/routing/conflict.go.
--   Routing/Beside: `TunnelPlan.Beside`, `place` and `addRoute`.
--   Safety/Executor: internal/safety/executor.go over a provider that is a parameter.
--   Safety/Protocol: `Protocol` of internal/safety/apply.go. Settle has what resolves a transaction,
--     Replay the rollback, Vet `checkPlanGuardrails`, Execute from a plan to a transaction on
--     probation, Apply `Apply`, `ApplyBuilt` and `ApplyPlan`, Startup what runs after a restart. The
--     other files there are theorems: Invariant, Steps, Begun and Reach on every state reached,
--     Outcome and Final on decisions, Replayed, Recovered and Unread on undoing, Untouched, Vetted.
--   Safety/Panic: internal/safety/panic.go, and the flush of `PanicWith`.
--   Store: the tables `ownership`, `pending_tx` and `snapshots` of internal/store/store.go.
--   Routing/Tailscale: `BesideTailscale`.
--   Routing/Destinations: `profilePrefixes`, `ProfileDestinations`, `HoldsRoute`, `HoldsRule` and
--     `IncludeOwner` of internal/routing/engine.go, over the profiles of Domain/Profiles.
--   Routing/Desired: `BuildDesired`, with `buildDarwinInclude` in Desired/Include.antt and the whole in
--     Desired/Build.antt; Origin and Built are theorems. The plan of the tunnels is an argument.
--   Routing/TunnelRoutes: `TunnelProfileRoutes` and `WithRoutes`.
--   Safety/Watchdog: internal/safety/watchdog.go over explicit sequences of events.
--   Safety/LiveRepair: `held`, `note` and `installed` of internal/safety/live.go.
--   Safety/Guardrails: `checkGuardrails` of internal/safety/guardrails.go.
--   Routing/RulesBeside: `TunnelPlan.RulesBeside` and `ruleDestination`.
--   Routing/Unclaimed: `unclaimedAggregate`.
--   Core/Yielded: `putBackRoutes`, `putBackRules` and `yieldedTo` of internal/core/yielded.go.
--   Update/Version: `Newer`, `parseSemver` and `IsRelease` of internal/update.
--   Update/Decide: `Decide` of internal/update/manifest.go.
--   Updater/Boot: `BootGuard`, `rollback` and `Confirm` of internal/updater/boot.go.
--   Examples: tests, and the theorems at concrete inputs.
--
-- How state and operations correspond: a Go map or set that is only looked up is a list of its keys,
-- an association list, or a function; a loop is a recursion on its list, with its accumulators as
-- arguments; an error is an Option or a data type of its own. Addresses are numbers below 2 ^ 32 or
-- 2 ^ 128, times are numbers of nanoseconds, and Go's strings are texts.
--
-- Bounds and fuel: `Aggregate` merges with one unit of fuel for each prefix and one more, since each
-- pass that changes something leaves fewer prefixes; `subtractNets` splits with one unit for each
-- open bit of the prefix and one more, since only a prefix shorter than a network is split. The
-- theorems on both hold of these amounts, so they are enough.
--
-- An update is given `maxBoots` starts: the theorem on giving it up counts them. Which calls of the
-- operating system succeed at a start, the removals of files included, is an input (`Io`).
--
-- The apply protocol is a state that each call takes to the next. A call under the apply lock is one
-- step; the decisions of the watchdog, of the timers and of the user, and the goroutine that receives
-- the first of them, are steps of their own, in any order (`Step` in Safety/Protocol/Reach.antt). The
-- kernel, what a change's record writes, and the stored profiles are of any type; which statements of
-- the database fail is a parameter, and so is every call of the provider.
--
-- Not modelled: the texts and commands that display an operation, contexts and deadlines, progress
-- counts and logs, the sorted list of held routes, PlanTunnels (planned next), a provider
-- that panics, TryQuiesce and Busy, the updater's downloads and staging, and everything
-- that calls the operating system, the network or the disk.
pub mod Base
pub mod Netip
pub mod Domain
pub mod Routing
pub mod Safety
pub mod Store
pub mod Core
pub mod Update
pub mod Updater
mod Examples
