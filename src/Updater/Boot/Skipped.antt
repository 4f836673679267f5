-- ===== src/Updater/Boot/Skipped.antt =====
-- A release that was rolled back is not installed again: the boot guard's record, as `Decide` reads it.
use riftroute.Base.{
  ◌<◌, String, str_eq, str_eq_iff, ltb, if◌then◌else◌, Bool, true, false, not, ◌&&◌, Option, none,
  some, suc, ◌⊎◌, ◌≡◌, ◌≢◌, refl, sym, ap, ◌∙◌, inl, inr, arith, Bool-cases,
}
use riftroute.Update.Version.{newer}
use riftroute.Update.Version.Order.{newer_irrefl}
use riftroute.Update.Decide.{DecideInput, decide, install}
use riftroute.Update.Decide.Install.{decide_install_iff}
use riftroute.Updater.Boot.{
  Marker, Disk, Io, record_rolled_back, restore_database, restore_binary, rollback_to, rollback,
  settle_rollback, rollback_or_carry_on, guard_marked, Start, restart_now, carry_on, max_boots,
  not_the_update, on_probation, boot_guard,
}

-- A version that is skipped.
decide_skipped :
    (i : DecideInput) → i.skip ≡ i.manifest.version → i.skip ≢ "" → (decide i).action ≢ install
decide_skipped i s n e =
    let h = (decide_install_iff i).0 e in
    let old = ap (newer i.skip) (sym s) ∙ newer_irrefl i.skip in
    n ((str_eq_iff i.skip "").0 (ground (arith, h.not_skipped, old)))

record_rolled_back-skip :
    (io : Io) (v by : String) (d : Disk)
    → io.state_io ≡ true
    → (record_rolled_back io v by d).state.skip ≡ v
unfolding record_rolled_back
record_rolled_back-skip io v by d e = rw e refl

if-disk : (b : Bool) (x y : Disk) → b ≡ true → (if b then x else y) ≡ x
if-disk true x y e = refl
if-disk false x y e = cc

not_the_update-skip :
    (io : Io) (m : Marker) (d : Disk)
    → io.state_io ≡ true
    → 0 < m.boots
    → (not_the_update io m.from m d).state.skip ≡ m.to
unfolding not_the_update
not_the_update-skip io m d s b =
    ap (λ (d : Disk). d.state.skip)
      (if-disk (str_eq m.from m.from && ltb 0 m.boots) _ _
        (ground (arith, (str_eq_iff m.from m.from).1 refl)))
    ∙ record_rolled_back-skip io m.to "health" _ s

if-start : (b : Bool) (x y : Disk × Start) → b ≡ false → (if b then x else y) ≡ y
if-start true x y e = cc
if-start false x y e = refl

back_again :
    (io : Io) (m : Marker) (d : Disk)
    → m.rollback ≡ false
    → str_eq m.from m.to ≡ false
    → guard_marked io m.from (some m) d ≡ (not_the_update io m.from m d, carry_on)
unfolding guard_marked
back_again io m d r a =
    if-start m.rollback (rollback_or_carry_on io m "you" d) _ r
    ∙ elim (Bool-cases (str_eq m.from m.to)) [ inl y ↦ ground arith | inr n ↦ rw n refl ]

-- A rollback that went through has recorded the version; else it has an error.
abbrev Recorded : String → Disk × Option String → Type 0
Recorded v r = (r.0.state.skip ≡ v) ⊎ ((e : String) × (r.1 ≡ some e))

restore_binary-Recorded :
    (io : Io) (m : Marker) (by p : String) (d : Disk)
    → io.state_io ≡ true
    → Recorded m.to (restore_binary io m by p d)
unfolding restore_binary
restore_binary-Recorded io m by p d s = elim (Bool-cases io.copies_binary) [
  | inr n ↦ rw n (inr ("restore binary", refl))
  | inl y ↦ rw y (inl (record_rolled_back-skip io m.to by _ s))
]

rollback_to-Recorded :
    (io : Io) (m : Marker) (by : String) (o : Option String) (d : Disk)
    → io.state_io ≡ true
    → Recorded m.to (rollback_to io m by o d)
unfolding rollback_to
rollback_to-Recorded io m by none d s = inr ("no previous binary to roll back to", refl)
rollback_to-Recorded io m by (some p) d s = elim (Bool-cases (restore_database io d).1) [
  | inr n ↦ rw n (inr ("restore database", refl))
  | inl y ↦ rw y (restore_binary-Recorded io m by p _ s)
]

settle_rollback-skip :
    (io : Io) (v : String) (r : Disk × Option String)
    → Recorded v r
    → (settle_rollback io r).1 ≡ restart_now
    → (settle_rollback io r).0.state.skip ≡ v
unfolding settle_rollback
settle_rollback-skip io v (d, none) (inl k) h = k
settle_rollback-skip io v (d, none) (inr k) h = cc
settle_rollback-skip io v (d, some e) k h = cc

rollback_or_carry_on-skip :
    (io : Io) (m : Marker) (by : String) (d : Disk)
    → io.state_io ≡ true
    → (rollback_or_carry_on io m by d).1 ≡ restart_now
    → (rollback_or_carry_on io m by d).0.state.skip ≡ m.to
unfolding rollback_or_carry_on rollback
rollback_or_carry_on-skip io m by d s =
    settle_rollback-skip io m.to (rollback_to io m by d.previous d)
      (rollback_to-Recorded io m by d.previous d s)

-- What holds of both starts where they restart holds of either.
either-skip :
    (v : String) (b : Bool) (x y : Disk × Start)
    → (x.1 ≡ restart_now → x.0.state.skip ≡ v)
    → (y.1 ≡ restart_now → y.0.state.skip ≡ v)
    → (if b then x else y).1 ≡ restart_now
    → (if b then x else y).0.state.skip ≡ v
either-skip v true x y hx hy = hx
either-skip v false x y hx hy = hy

on_probation-skip :
    (io : Io) (m : Marker) (d : Disk)
    → io.state_io ≡ true
    → (on_probation io m d).1 ≡ restart_now
    → (on_probation io m d).0.state.skip ≡ m.to
unfolding on_probation
on_probation-skip io m d s =
    either-skip m.to (ltb max_boots (suc m.boots)) _ _
      (rollback_or_carry_on-skip io (record m { boots = suc m.boots }) "health" d s) (λ h. cc)

guard_marked-skip :
    (io : Io) (current : String) (m : Marker) (d : Disk)
    → io.state_io ≡ true
    → (guard_marked io current (some m) d).1 ≡ restart_now
    → (guard_marked io current (some m) d).0.state.skip ≡ m.to
unfolding guard_marked
guard_marked-skip io current m d s =
    either-skip m.to m.rollback _ _ (rollback_or_carry_on-skip io m "you" d s) (
      either-skip m.to (not (str_eq current m.to)) (not_the_update io current m d, carry_on)
        (on_probation io m d) (λ h. cc) (on_probation-skip io m d s))

-- A start at which the marker's update is rolled back, by the user or for its health, or a first start
-- of the old binary after that.
abbrev pub GoesBack : Io → String → Marker → Disk → Type 0
GoesBack io current m d =
    ((boot_guard io current d).1 ≡ restart_now)
    ⊎ ((current ≡ m.from) × (m.rollback ≡ false) × (str_eq m.from m.to ≡ false) × (0 < m.boots))

boot_guard-recorded :
    (io : Io) (current : String) (m : Marker) (d : Disk)
    → d.marker ≡ some m
    → GoesBack io current m d
    → io.state_io ≡ true
    → (boot_guard io current d).0.state.skip ≡ m.to
unfolding boot_guard
boot_guard-recorded io current m d e (inl h) s =
    let done = ap (λ (o : Option Marker). guard_marked io current o d) e in
    ap (λ (r : Disk × Start). r.0.state.skip) done
    ∙ guard_marked-skip io current m d s (sym (ap (λ (r : Disk × Start). r.1) done) ∙ h)
boot_guard-recorded io current m d e (inr (c, r, a, b)) s =
    ap (λ (v : String). (guard_marked io v d.marker d).0.state.skip) c
    ∙ ap (λ (o : Option Marker). (guard_marked io m.from o d).0.state.skip) e
    ∙ ap (λ (r : Disk × Start). r.0.state.skip) (back_again io m d r a)
    ∙ not_the_update-skip io m d s b

-- Where the state can be written, and a start rolls the marker's update back (it asks for the restart
-- that follows a rollback by the user or for its health), or is the old binary's first after that (the
-- marker has counted starts): whatever the update rules are then given, with the recorded version to
-- skip and a release of the version that was rolled back, they do not install it.
pub boot_guard-skip :
    (io : Io) (current : String) (m : Marker) (d : Disk) (i : DecideInput)
    → d.marker ≡ some m
    → GoesBack io current m d
    → io.state_io ≡ true
    → m.to ≢ ""
    → i.skip ≡ (boot_guard io current d).0.state.skip
    → i.manifest.version ≡ m.to
    → (decide i).action ≢ install
boot_guard-skip io current m d i e g s n k v =
    let skip = k ∙ boot_guard-recorded io current m d e g s in
    decide_skipped i (skip ∙ sym v) (λ q. n (sym skip ∙ q))
