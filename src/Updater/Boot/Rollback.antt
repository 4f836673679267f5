-- ===== src/Updater/Boot/Rollback.antt =====
-- What a start does to the database: it is replaced by the backup, and only where it must be.
use riftroute.Base.{
  suc, String, str_eq, ltb, ◌==◌, if◌then◌else◌, Bool, true, false, not, ◌&&◌, Option, none, some,
  ◌≡◌, ◌⊎◌, refl, ◌∙◌, inl, inr, arith, Bool-cases,
}
use riftroute.Updater.Boot.{
  Marker, Database, Disk, Io, restore_helpers, record_rolled_back, restore_database, restore_from,
  restore_binary, rollback_to, rollback, guard_marked, max_boots, Start, carry_on, settle_rollback,
  rollback_or_carry_on, not_the_update, on_probation, boot_guard,
}

-- The backup was to take the database's place: the previous version could not have read it. The log
-- and its index are gone unless they could not be removed, and the backup stands in the database's
-- place unless the rename failed.
pub record Replaced (io : Io) (d d' : Disk) : Type 0 where
  pub old : Database
  pub kept : d.backup ≡ some old
  pub needed : ltb old.schema d.db.min_reader ≡ true
  pub copied : io.copies_db ≡ true
  pub placed : d'.db ≡ (if io.renames_db then old else d.db)
  pub log : d'.wal ≡ (not io.removes_wal && d.wal)
  pub log_index : d'.shm ≡ (not io.removes_shm && d.shm)

-- The database, its log and the log's index are left alone.
pub record Untouched (d d' : Disk) : Type 0 where
  pub db : d'.db ≡ d.db
  pub log : d'.wal ≡ d.wal
  pub log_index : d'.shm ≡ d.shm

abbrev pub DatabaseSafe : Io → Disk → Disk → Type 0
DatabaseSafe io d d' = Untouched d d' ⊎ Replaced io d d'

Untouched-refl : (d : Disk) → Untouched d d
Untouched-refl d = record { db = refl; log = refl; log_index = refl }

Untouched-trans : (d d' e : Disk) → Untouched d d' → Untouched d' e → Untouched d e
Untouched-trans d d' e u v = record {
  db = v.db ∙ u.db;
  log = v.log ∙ u.log;
  log_index = v.log_index ∙ u.log_index;
}

DatabaseSafe-then :
    (io : Io) (d d' e : Disk) → DatabaseSafe io d d' → Untouched d' e → DatabaseSafe io d e
DatabaseSafe-then io d d' e (inl s) u = inl (Untouched-trans d d' e s u)
DatabaseSafe-then io d d' e (inr r) u = inr (record {
  old = r.old;
  kept = r.kept;
  needed = r.needed;
  copied = r.copied;
  placed = u.db ∙ r.placed;
  log = u.log ∙ r.log;
  log_index = u.log_index ∙ r.log_index;
})

restore_helpers-Untouched : (io : Io) (d : Disk) → Untouched d (restore_helpers io d)
unfolding restore_helpers
restore_helpers-Untouched io d = elim (Bool-cases io.state_io) [
  | inl y ↦ rw y (record { db = refl; log = refl; log_index = refl })
  | inr n ↦ rw n (record { db = refl; log = refl; log_index = refl })
]

record_rolled_back-Untouched :
    (io : Io) (v by : String) (d : Disk) → Untouched d (record_rolled_back io v by d)
unfolding record_rolled_back
record_rolled_back-Untouched io v by d = elim (Bool-cases io.state_io) [
  | inl y ↦ rw y (record { db = refl; log = refl; log_index = refl })
  | inr n ↦ rw n (record { db = refl; log = refl; log_index = refl })
]

restore_binary-Untouched :
    (io : Io) (m : Marker) (by p : String) (d : Disk) → Untouched d (restore_binary io m by p d).0
unfolding restore_binary
restore_binary-Untouched io m by p d = elim (Bool-cases io.copies_binary) [
  | inr n ↦ rw n (record { db = refl; log = refl; log_index = refl })
  | inl y ↦ rw y (restored _ _)
]
  where
    restored :
        (marker : Option Marker) (previous : Option String)
        → Untouched d (
            record_rolled_back io m.to by
              (record d { binary = p; previous = previous; marker = marker }))
    restored marker previous =
        let u =
          record_rolled_back-Untouched io m.to by
            (record d { binary = p; previous = previous; marker = marker }) in
        record { db = u.db; log = u.log; log_index = u.log_index }

restore_from-DatabaseSafe :
    (io : Io) (o : Option Database) (d : Disk)
    → d.backup ≡ o
    → DatabaseSafe io d (restore_from io o d).0
unfolding restore_from
restore_from-DatabaseSafe io none d e = inl (Untouched-refl d)
restore_from-DatabaseSafe io (some b) d e =
    elim (Bool-cases (io.reads_db && ltb b.schema d.db.min_reader)) [
      | inr n ↦ rw n (inl (Untouched-refl d))
      | inl y ↦ elim (Bool-cases io.copies_db) [
        | inr n ↦ rw (y, n) (inl (Untouched-refl d))
        | inl c ↦ inr (record {
          old = b;
          kept = e;
          needed = ground arith;
          copied = c;
          placed = rw (y, c) (ground arith);
          log = rw (y, c) (ground arith);
          log_index = rw (y, c) (ground arith);
        })
      ]
    ]

rollback_to-DatabaseSafe :
    (io : Io) (m : Marker) (by : String) (o : Option String) (d : Disk)
    → DatabaseSafe io d (rollback_to io m by o d).0
unfolding rollback_to restore_database
rollback_to-DatabaseSafe io m by none d = inl (Untouched-refl d)
rollback_to-DatabaseSafe io m by (some p) d =
    let d' = (restore_from io d.backup d).0 in
    let safe = restore_from-DatabaseSafe io d.backup d refl in
    let helped = restore_helpers-Untouched io d' in
    elim (Bool-cases (restore_from io d.backup d).1) [
      | inr n ↦ rw n safe
      | inl y ↦ rw y (
          DatabaseSafe-then io d (restore_helpers io d') _
            (DatabaseSafe-then io d d' (restore_helpers io d') safe helped)
            (restore_binary-Untouched io m by p (restore_helpers io d')))
    ]

settle_rollback-Untouched :
    (io : Io) (r : Disk × Option String) → Untouched r.0 (settle_rollback io r).0
unfolding settle_rollback
settle_rollback-Untouched io (d, none) = record { db = refl; log = refl; log_index = refl }
settle_rollback-Untouched io (d, some e) = record { db = refl; log = refl; log_index = refl }

rollback_or_carry_on-DatabaseSafe :
    (io : Io) (m : Marker) (by : String) (d : Disk)
    → DatabaseSafe io d (rollback_or_carry_on io m by d).0
unfolding rollback_or_carry_on rollback
rollback_or_carry_on-DatabaseSafe io m by d =
    DatabaseSafe-then io d (rollback_to io m by d.previous d).0 _
      (rollback_to-DatabaseSafe io m by d.previous d)
      (settle_rollback-Untouched io (rollback_to io m by d.previous d))

either-Untouched :
    (b : Bool) (d x y : Disk) → Untouched d x → Untouched d y → Untouched d (if b then x else y)
either-Untouched true d x y hx hy = hx
either-Untouched false d x y hx hy = hy

not_the_update-Untouched :
    (io : Io) (current : String) (m : Marker) (d : Disk)
    → Untouched d (not_the_update io current m d)
unfolding not_the_update
not_the_update-Untouched io current m d =
    let helped = (if m.boots == 0 then restore_helpers io d else d) in
    let recorded =
      either-Untouched (str_eq current m.from && ltb 0 m.boots) helped
        (record_rolled_back io m.to "health" helped) helped
        (record_rolled_back-Untouched io m.to "health" helped) (Untouched-refl helped) in
    let both =
      Untouched-trans d helped _
        (either-Untouched (m.boots == 0) d (restore_helpers io d) d (restore_helpers-Untouched io d)
          (Untouched-refl d))
        recorded in
    record { db = both.db; log = both.log; log_index = both.log_index }

on_probation-DatabaseSafe :
    (io : Io) (m : Marker) (d : Disk) → DatabaseSafe io d (on_probation io m d).0
unfolding on_probation
on_probation-DatabaseSafe io m d = elim (Bool-cases (ltb max_boots (suc m.boots))) [
  | inl y ↦
      rw y (rollback_or_carry_on-DatabaseSafe io (record m { boots = suc m.boots }) "health" d)
  | inr n ↦ rw n (inl (record { db = refl; log = refl; log_index = refl }))
]

either-DatabaseSafe :
    (io : Io) (d : Disk) (b : Bool) (x y : Disk × Start)
    → DatabaseSafe io d x.0
    → DatabaseSafe io d y.0
    → DatabaseSafe io d (if b then x else y).0
either-DatabaseSafe io d true x y hx hy = hx
either-DatabaseSafe io d false x y hx hy = hy

guard_marked-DatabaseSafe :
    (io : Io) (current : String) (o : Option Marker) (d : Disk)
    → DatabaseSafe io d (guard_marked io current o d).0
unfolding guard_marked
guard_marked-DatabaseSafe io current none d = inl (Untouched-refl d)
guard_marked-DatabaseSafe io current (some m) d =
    either-DatabaseSafe io d m.rollback _ _ (rollback_or_carry_on-DatabaseSafe io m "you" d) (
      either-DatabaseSafe io d (not (str_eq current m.to)) (not_the_update io current m d, carry_on)
        (on_probation io m d) (inl (not_the_update-Untouched io current m d))
        (on_probation-DatabaseSafe io m d))

-- Whatever succeeds at a start, removals and renames included, and whatever the disk holds: the boot
-- guard leaves the database, its log and the log's index as they are; or the previous version could
-- not have read the database and the backup was copied, the log and its index are gone unless they
-- could not be removed, and the backup is in the database's place unless the rename failed.
pub boot_guard-DatabaseSafe :
    (io : Io) (current : String) (d : Disk) → DatabaseSafe io d (boot_guard io current d).0
unfolding boot_guard
boot_guard-DatabaseSafe io current d = guard_marked-DatabaseSafe io current d.marker d
