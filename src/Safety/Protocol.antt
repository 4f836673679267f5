-- ===== src/Safety/Protocol.antt =====
-- internal/safety/apply.go: the state of the apply protocol. Its transactions on probation, with
-- what the goroutine that resolves each one waits for, and the state that it changes: the kernel, the
-- database and what the changes' records (`OnCommit`) write.
pub mod Replay
pub mod Settle
pub mod Vet
pub mod Execute
pub mod Apply
pub mod Startup
pub mod Invariant
pub mod Steps
pub mod Outcome
pub mod Begun
pub mod Reach
pub mod Final
pub mod Replayed
pub mod Recovered
pub mod Untouched
pub mod Vetted
pub mod Unread
use riftroute.Base.{ℕ, ◌+◌, String, Bool, Option, List, if◌then◌else◌, none, some, ◌==◌}
use riftroute.Netip.{Addr}
use riftroute.Netip.Syntax.{Syntax}
use riftroute.Domain.{Family, Route, PolicyRule, RouteDecision, ManagedRoute, ManagedRule, Plan}
use riftroute.Safety.Executor.{RouteProvider}
use riftroute.Safety.LiveRepair.{Recs}
use riftroute.Store.{TxId, Db, Faults}

-- `decision`, with `code` and `why`.
pub data Decision : Type 0 where
  commit rollback rollback_watchdog rollback_unconfirmed rollback_shutdown : Decision

abbrev pub code : Decision → String
code rollback_watchdog = "watchdog"
code rollback_unconfirmed = "unconfirmed"
code rollback_shutdown = "shutdown"
code commit = "requested"
code rollback = "requested"

abbrev pub why : Decision → String
why rollback_watchdog =
    "the connection was lost: no connectivity check answered, several times in a row"
why rollback_unconfirmed = "not kept in time"
why rollback_shutdown = "the daemon stopped before it was kept"
why commit = "reverted on request"
why rollback = "reverted on request"

pub data TxResult : Type 0 where
  pending committed rolled_back failed : TxResult

pub data RecState : Type 0 where
  rec_open rec_committed rec_rolled_back : RecState

-- `pendingTx`. `decided` is the first decision sent on the channel, the only one that is received;
-- `actor` is the argument of its `resolve`.
pub record PendingTx (R : Type 0) : Type 0 where
  pub id : TxId
  pub plan : Plan
  pub interactive : Bool
  pub ownership : Bool
  pub decided : Option Decision
  pub on_commit : Option (R → R)
  pub rec : RecState
  pub actor : String

-- An entry of the map `resolved`, with the record's state that its `pendingTx` was left in.
pub record Resolved : Type 0 where
  pub id : TxId
  pub result : TxResult
  pub rec : RecState

-- `Protocol`, with the state that it changes.
pub record Protocol (K R P : Type 0) : Type 0 where
  pub kernel : K
  pub db : Db P
  pub outside : R
  pub pending : List (PendingTx R)
  pub resolved : List Resolved
  pub idseq : ℕ
  pub last_tx : Option ℕ
  pub live : Recs
  pub panicking : ℕ
  pub quiesced : Bool
  pub lent : Bool

-- What the protocol runs on: the provider, its reads of the kernel, the database's failures, and the
-- SSH session's peer.
pub record Env (K : Type 0) : Type 0 where
  pub prov : RouteProvider K
  pub list_routes : K → Family → Option (List Route)
  pub list_rules : K → Family → Option (List PolicyRule)
  pub lookup : K → Addr → Option RouteDecision
  pub flush_owned : K → K
  pub fail : Faults
  pub syntax : Syntax
  pub peer : Option Addr

-- `Options`. The gateway is `none` when it is not valid; durations are nanoseconds. The anchors, K
-- and the probes' cadence go to the watchdog, which has its own model.
pub record Options (R P : Type 0) : Type 0 where
  pub dry_run : Bool
  pub interactive : Bool
  pub confirm_timeout : ℕ
  pub guard_window : ℕ
  pub actor : String
  pub phys_gw : Option Addr
  pub snapshot_profiles : Option (List P)
  pub vet_changes_only : Bool
  pub unguarded : Bool
  pub on_commit : Option (R → R)
  pub built_on_record : Bool
  pub lendable : Bool
  pub background : Bool

-- `window`.
unfoldable pub window : {R P : Type 0} → Options R P → ℕ
window o =
    if o.interactive
    then if o.confirm_timeout == 0 then 15000000000 else o.confirm_timeout
    else if o.guard_window == 0
    then 30000000000
    else o.guard_window
