-- ===== src/Updater/Boot/Starts.antt =====
-- An update that never comes up is given up after its starts are used.
use mathlib.Core.Path.{subst}
use riftroute.Base.{
  ℕ, zero, suc, ◌+◌, ◌<◌, String, str_eq, str_eq_iff, ltb, if◌then◌else◌, Bool, true, false, not,
  ◌&&◌, Option, none, some, ◌≡◌, refl, sym, ap, ◌∙◌, inl, inr, arith, Bool-cases,
}
use riftroute.Updater.Boot.{
  Marker, Database, Disk, Io, restore_helpers, record_rolled_back, restore_from, restore_database,
  restore_binary, rollback_to, rollback, guard_marked, max_boots, Start, restart_now, carry_on,
  probation, settle_rollback, rollback_or_carry_on, not_the_update, on_probation, boot_guard,
}

-- Starts of one binary, one after the other, that are not confirmed: what the last one gives.
unfoldable pub starts : ℕ → Io → String → Disk → Disk × Start
starts zero io current d = boot_guard io current d
starts (suc n) io current d = starts n io current (boot_guard io current d).0

-- The copies and the marker's write succeed.
pub record Works (io : Io) : Type 0 where
  pub copies_db : io.copies_db ≡ true
  pub renames_db : io.renames_db ≡ true
  pub copies_binary : io.copies_binary ≡ true
  pub writes_marker : io.writes_marker ≡ true

-- The previous binary is back, and the service manager starts it.
abbrev pub GivenUp : String → Disk × Start → Type 0
GivenUp p r = (r.1 ≡ restart_now) × (r.0.binary ≡ p)

restore_from-ok :
    (io : Io) (o : Option Database) (d : Disk) → Works io → (restore_from io o d).1 ≡ true
unfolding restore_from
restore_from-ok io none d w = refl
restore_from-ok io (some b) d w = elim (Bool-cases (io.reads_db && ltb b.schema d.db.min_reader)) [
  | inr n ↦ rw n refl
  | inl y ↦ rw (y, w.copies_db, w.renames_db) refl
]

record_rolled_back-binary :
    (io : Io) (v by : String) (d : Disk) → (record_rolled_back io v by d).binary ≡ d.binary
unfolding record_rolled_back
record_rolled_back-binary io v by d = elim (Bool-cases io.state_io) [
  | inl y ↦ rw y refl
  | inr n ↦ rw n refl
]

restore_binary-Works :
    (io : Io) (m : Marker) (by p : String) (d : Disk)
    → Works io
    → ((restore_binary io m by p d).0.binary ≡ p) × ((restore_binary io m by p d).1 ≡ none)
unfolding restore_binary
restore_binary-Works io m by p d w =
    rw w.copies_binary (record_rolled_back-binary io m.to by _, refl)

rollback_to-Works :
    (io : Io) (m : Marker) (by p : String) (d : Disk)
    → Works io
    → ((rollback_to io m by (some p) d).0.binary ≡ p) × ((rollback_to io m by (some p) d).1 ≡ none)
unfolding rollback_to restore_database
rollback_to-Works io m by p d w =
    rw (restore_from-ok io d.backup d w) (restore_binary-Works io m by p (restore_helpers io _) w)

settle_rollback-Works :
    (io : Io) (r : Disk × Option String) (p : String)
    → r.0.binary ≡ p
    → r.1 ≡ none
    → GivenUp p (settle_rollback io r)
unfolding settle_rollback
settle_rollback-Works io (d, none) p b e = (refl, b)
settle_rollback-Works io (d, some x) p b e = cc

rollback_or_carry_on-Works :
    (io : Io) (m : Marker) (by p : String) (d : Disk)
    → Works io
    → d.previous ≡ some p
    → GivenUp p (rollback_or_carry_on io m by d)
unfolding rollback_or_carry_on rollback
rollback_or_carry_on-Works io m by p d w e =
    subst (λ (o : Option String). GivenUp p (settle_rollback io (rollback_to io m by o d))) (sym e)
      (settle_rollback-Works io (rollback_to io m by (some p) d) p
        (rollback_to-Works io m by p d w).0 (rollback_to-Works io m by p d w).1)

if_false : (b : Bool) (x y : Disk × Start) → b ≡ false → (if b then x else y) ≡ y
if_false true x y e = cc
if_false false x y e = refl

if_true : (b : Bool) (x y : Disk × Start) → b ≡ true → (if b then x else y) ≡ x
if_true true x y e = refl
if_true false x y e = cc

-- A start of the update is one on probation.
guard-probation :
    (io : Io) (m : Marker) (d : Disk)
    → m.rollback ≡ false
    → d.marker ≡ some m
    → boot_guard io m.to d ≡ on_probation io m d
unfolding boot_guard guard_marked
guard-probation io m d r e =
    ap (λ (o : Option Marker). guard_marked io m.to o d) e
    ∙ if_false m.rollback (rollback_or_carry_on io m "you" d) _ r
    ∙ if_false (not (str_eq m.to m.to)) (not_the_update io m.to m d, carry_on) (on_probation io m d)
        (ap not ((str_eq_iff m.to m.to).1 refl))

abbrev counted : Marker → Marker
counted m = record m { boots = suc m.boots }

on_probation-last :
    (io : Io) (m : Marker) (d : Disk)
    → m.boots ≡ max_boots
    → on_probation io m d ≡ rollback_or_carry_on io (counted m) "health" d
unfolding on_probation
on_probation-last io m d e = if_true (ltb max_boots (suc m.boots)) _ _ (ground arith)

marker-if : (b : Bool) (x y : Option Marker) → b ≡ true → (if b then x else y) ≡ x
marker-if true x y e = refl
marker-if false x y e = cc

on_probation-more :
    (io : Io) (m : Marker) (d : Disk)
    → m.boots < max_boots
    → io.writes_marker ≡ true
    → on_probation io m d ≡ (record d { marker = some (counted m) }, probation)
unfolding on_probation
on_probation-more io m d l w =
    if_false (ltb max_boots (suc m.boots)) _ _ (ground arith)
    ∙ ap (λ (o : Option Marker). (record d { marker = o }, probation))
        (marker-if io.writes_marker (some (counted m)) d.marker w)

-- An update that does not come up is given up: where the copies and the marker's writes succeed and
-- the previous binary is there, a marker that has counted some starts and the starts left of three,
-- none of them confirmed, end in a restart of the previous binary at the next start.
pub starts-GivenUp :
    (n : ℕ) (io : Io) (m : Marker) (p : String) (d : Disk)
    → Works io
    → d.marker ≡ some m
    → m.rollback ≡ false
    → m.boots + n ≡ max_boots
    → d.previous ≡ some p
    → GivenUp p (starts n io m.to d)
unfolding starts
starts-GivenUp zero io m p d w e r b h =
    subst (GivenUp p)
      (sym (guard-probation io m d r e ∙ on_probation-last io m d (omega (arith, b))))
      (rollback_or_carry_on-Works io (counted m) "health" p d w h)
starts-GivenUp (suc n) io m p d w e r b h =
    let next : Disk = record d { marker = some (counted m) } in
    let step =
      guard-probation io m d r e ∙ on_probation-more io m d (omega (arith, b)) w.writes_marker in
    subst (λ (s : Disk × Start). GivenUp p (starts n io m.to s.0)) (sym step)
      (starts-GivenUp n io (counted m) p next w refl r (omega (arith, b)) h)
