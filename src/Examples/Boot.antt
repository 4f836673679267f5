-- ===== src/Examples/Boot.antt =====
-- An update from 1.2.3 to 1.3.0 that never comes up.
use riftroute.Base.{ℕ, true, false, [], ◌∷◌, none, some, inl, ◌≡◌, ◌≢◌, refl, arith}
use riftroute.Update.Version.{newer, is_release}
use riftroute.Update.Decide.{DecideInput, decide, install}
use riftroute.Updater.Boot.{Marker, Disk, Io, boot_guard}
use riftroute.Updater.Boot.Rollback.{DatabaseSafe, boot_guard-DatabaseSafe}
use riftroute.Updater.Boot.Starts.{starts, GivenUp, starts-GivenUp}
use riftroute.Updater.Boot.Skipped.{GoesBack, boot_guard-skip}

abbrev works : Io
works = record {
  now = 5;
  state_io = true;
  reads_db = true;
  copies_db = true;
  renames_db = true;
  removes_wal = true;
  removes_shm = true;
  copies_binary = true;
  removes_previous = true;
  copies_helper = true;
  removes_helper = true;
  writes_marker = true;
  removes_marker = true;
}

abbrev marker : ℕ → Marker
marker boots = record { from = "1.2.3"; to = "1.3.0"; at = 1; boots = boots; rollback = false }

-- The update raised the schema that may read the database above the old one.
abbrev updated : ℕ → Disk
updated boots = record {
  marker = some (marker boots);
  state = record {
    skip = "";
    rolled_back_from = "";
    rolled_back_by = "";
    rollback_error = "";
    installed_at = 0;
  };
  binary = "1.3.0";
  previous = some "1.2.3";
  db = record { schema = 9; min_reader = 8 };
  wal = true;
  shm = true;
  backup = some (record { schema = 7; min_reader = 1 });
  helpers = record { file = some "new"; previous = some "old"; swap = "replaced" } ∷ [];
}

starts_test : (starts 3 works "1.3.0" (updated 0)).0.db ≡ record { schema = 7; min_reader = 1 }
unfolding starts boot_guard
starts_test = refl

boot_guard-DatabaseSafe_example :
    DatabaseSafe works (updated 3) (boot_guard works "1.3.0" (updated 3)).0
boot_guard-DatabaseSafe_example = boot_guard-DatabaseSafe works "1.3.0" (updated 3)

starts-GivenUp_example : GivenUp "1.2.3" (starts 3 works "1.3.0" (updated 0))
starts-GivenUp_example =
    starts-GivenUp 3 works (marker 0) "1.2.3" (updated 0)
      (record { copies_db = refl; renames_db = refl; copies_binary = refl; writes_marker = refl })
      refl refl (omega arith) refl

abbrev later : DecideInput
later = record {
  current = "1.2.3";
  mode = "auto";
  manifest = record {
    version = "1.3.0";
    min_from = "";
    assets = record { os = "linux"; arch = "amd64"; kind = "tarball" } ∷ [];
  };
  advice = none;
  bucket = 0;
  goos = "linux";
  goarch = "amd64";
  self_updatable = true;
  skip = "1.3.0";
}

-- Without the record of the rollback the release is installed.
later_test : (decide (record later { skip = "" })).action ≡ install
unfolding decide newer is_release
later_test = refl

-- A user's rollback, at the start after it was asked for.
abbrev asked : Disk
asked = record (updated 0) { marker = some (record (marker 0) { rollback = true }) }

asked_test : GoesBack works "1.3.0" (record (marker 0) { rollback = true }) asked
unfolding boot_guard
asked_test = inl refl

-- The log stays if it can't be removed, beside the database that took the other's place.
log_test :
    let r = (boot_guard (record works { removes_wal = false }) "1.3.0" (updated 3)).0 in
    (r.db ≡ record { schema = 7; min_reader = 1 }) × (r.wal ≡ true)
unfolding boot_guard
log_test = (refl, refl)

boot_guard-skip_example : (decide later).action ≢ install
unfolding boot_guard
boot_guard-skip_example =
    boot_guard-skip works "1.3.0" (marker 3) (updated 3) later refl (inl refl) refl (λ e. cc) refl
      refl
