-- ===== src/Updater/Boot.antt =====
-- internal/updater/boot.go: the boot guard. The files are a record of their contents; which calls of
-- the operating system succeed at a start is `Io`. The telemetry counter is left out.
pub mod Rollback
pub mod Starts
pub mod Skipped
use riftroute.Base.{
  ℕ, suc, ◌+◌, String, str_eq, ltb, ◌==◌, if◌then◌else◌, Bool, true, false, not, ◌&&◌, List, [],
  ◌∷◌, map, Option, none, some,
}

-- `marker`, `maxBoots`.
pub record Marker : Type 0 where
  pub from : String
  pub to : String
  pub at : ℕ
  pub boots : ℕ
  pub rollback : Bool

abbrev pub max_boots : ℕ
max_boots = 3

-- `persisted`, by the fields that a start reads or writes; the swaps stand with the helpers.
pub record Persisted : Type 0 where
  pub skip : String
  pub rolled_back_from : String
  pub rolled_back_by : String
  pub rollback_error : String
  pub installed_at : ℕ

-- A database file, by its schema version and the oldest schema that may read it.
pub record Database : Type 0 where
  pub schema : ℕ
  pub min_reader : ℕ

-- An installed helper: its file, the one kept from before the update, and what the update did.
pub record Helper : Type 0 where
  pub file : Option String
  pub previous : Option String
  pub swap : String

-- `wal` and `shm`: whether the database's log and the log's index are there.
pub record Disk : Type 0 where
  pub marker : Option Marker
  pub state : Persisted
  pub binary : String
  pub previous : Option String
  pub db : Database
  pub wal : Bool
  pub shm : Bool
  pub backup : Option Database
  pub helpers : List Helper

-- `GuardEnv`, with what succeeds at this start.
pub record Io : Type 0 where
  pub now : ℕ
  pub state_io : Bool
  pub reads_db : Bool
  pub copies_db : Bool
  pub renames_db : Bool
  pub removes_wal : Bool
  pub removes_shm : Bool
  pub copies_binary : Bool
  pub removes_previous : Bool
  pub copies_helper : Bool
  pub removes_helper : Bool
  pub writes_marker : Bool
  pub removes_marker : Bool

-- os.Remove, whose error the source ignores: a file that could not be removed stays.
abbrev pub removed {ℓ} : {A : Type ℓ} → Bool → Option A → Option A
removed true file = none
removed false file = file

-- `restoreHelper`, and the body of the loop of `restoreHelpersFor`.
unfoldable pub restore_helper : Io → Helper → Helper
restore_helper io h =
    if str_eq h.swap ""
    then h
    else if not (str_eq h.swap "replaced")
    then record h { swap = "" }
    else elim h.previous [
      | none ↦ record h { swap = "" }
      | some p ↦
          if io.copies_helper
          then record { file = some p; previous = removed io.removes_helper h.previous; swap = "" }
          else h
    ]

-- `restoreHelpersFor`.
unfoldable pub restore_helpers : Io → Disk → Disk
unfolding restore_helper
restore_helpers io d =
    if io.state_io then record d { helpers = map (restore_helper io) d.helpers } else d

-- `recordRolledBack`.
unfoldable pub record_rolled_back : Io → String → String → Disk → Disk
record_rolled_back io version by d =
    if io.state_io
    then record d {
      state = record d.state {
        rolled_back_from = version;
        rolled_back_by = by;
        skip = version;
        rollback_error = "";
      };
    }
    else d

-- The database's part of `rollback`, by the backup, and whether it went through.
unfoldable pub restore_from : Io → Option Database → Disk → Disk × Bool
restore_from io none d = (d, true)
restore_from io (some b) d =
    let dropped = record d {
      wal = not io.removes_wal && d.wal;
      shm = not io.removes_shm && d.shm;
    } in
    if not (io.reads_db && ltb b.schema d.db.min_reader)
    then (d, true)
    else if not io.copies_db
    then (d, false)
    else if not io.renames_db
    then (dropped, false)
    else (record dropped { db = b }, true)

unfoldable pub restore_database : Io → Disk → Disk × Bool
unfolding restore_from
restore_database io d = restore_from io d.backup d

-- The rest of `rollback`, from the previous binary on.
unfoldable pub restore_binary : Io → Marker → String → String → Disk → Disk × Option String
unfolding record_rolled_back
restore_binary io m by p d =
    let gone : Marker = record {
      from = m.from;
      to = m.to;
      at = io.now;
      boots = suc max_boots;
      rollback = false;
    } in
    let marker =
      if m.rollback
      then removed io.removes_marker d.marker
      else if io.writes_marker
      then some gone
      else d.marker in
    if not io.copies_binary then (d, some "restore binary") else (
      record_rolled_back io m.to by (record d {
        binary = p;
        previous = removed io.removes_previous d.previous;
        marker = marker;
      }),
      none,
    )

-- `rollback`, by the previous binary, with its error if it fails.
unfoldable pub rollback_to : Io → Marker → String → Option String → Disk → Disk × Option String
unfolding restore_database restore_helpers restore_binary
rollback_to io m by none d = (d, some "no previous binary to roll back to")
rollback_to io m by (some p) d =
    let (d', ok) = restore_database io d in
    if not ok
    then (d', some "restore database")
    else restore_binary io m by p (restore_helpers io d')

unfoldable pub rollback : Io → Marker → String → Disk → Disk × Option String
unfolding rollback_to
rollback io m by d = rollback_to io m by d.previous d

-- The verdict: to restart, to start normally, to start on probation, or a rollback that failed.
pub data Start : Type 0 where
  restart_now carry_on probation : Start
  rollback_failed : String → Start

-- `rollbackOrCarryOn`.
unfoldable pub settle_rollback : Io → Disk × Option String → Disk × Start
settle_rollback io (d, none) = (d, restart_now)
settle_rollback io (d, some e) = (
  record d {
    marker = removed io.removes_marker d.marker;
    state = if io.state_io then record d.state { rollback_error = e } else d.state;
  },
  rollback_failed e,
)

unfoldable pub rollback_or_carry_on : Io → Marker → String → Disk → Disk × Start
unfolding rollback settle_rollback
rollback_or_carry_on io m by d = settle_rollback io (rollback io m by d)

-- A start of another binary than the update's.
unfoldable pub not_the_update : Io → String → Marker → Disk → Disk
unfolding restore_helpers record_rolled_back
not_the_update io current m d =
    let d₁ = if m.boots == 0 then restore_helpers io d else d in
    let d₂ =
      if str_eq current m.from && ltb 0 m.boots
      then record_rolled_back io m.to "health" d₁
      else d₁ in
    record d₂ { marker = removed io.removes_marker d₂.marker }

-- A start of the update itself.
unfoldable pub on_probation : Io → Marker → Disk → Disk × Start
unfolding rollback_or_carry_on
on_probation io m d =
    let counted = record m { boots = suc m.boots } in
    if ltb max_boots (suc m.boots)
    then rollback_or_carry_on io counted "health" d
    else (record d { marker = if io.writes_marker then some counted else d.marker }, probation)

-- `BootGuard`, by the marker.
unfoldable pub guard_marked : Io → String → Option Marker → Disk → Disk × Start
unfolding rollback_or_carry_on not_the_update on_probation
guard_marked io current none d = (d, carry_on)
guard_marked io current (some m) d =
    if m.rollback
    then rollback_or_carry_on io m "you" d
    else if not (str_eq current m.to)
    then (not_the_update io current m d, carry_on)
    else on_probation io m d

unfoldable pub boot_guard : Io → String → Disk → Disk × Start
unfolding guard_marked
boot_guard io current d = guard_marked io current d.marker d

-- `Guard.Confirm` of a start on probation.
unfoldable pub confirm : Io → String → Disk → Disk
confirm io version d =
    let cleared : Option Marker = elim d.marker [
      | none ↦ none
      | some m ↦
          if not m.rollback && str_eq m.to version
          then removed io.removes_marker d.marker
          else some m
    ] in
    record d {
      marker = cleared;
      state =
          if io.state_io
          then record d.state {
            installed_at = io.now;
            rolled_back_from = "";
            rolled_back_by = "";
            rollback_error = "";
          }
          else d.state;
    }
