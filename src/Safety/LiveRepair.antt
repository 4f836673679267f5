-- ===== src/Safety/LiveRepair.antt =====
-- internal/safety/live.go: the routes that another program keeps removing, and holding them. Times
-- are nanoseconds since Go's zero time; the map `recs` is a function of the key.
pub mod Strikes
pub mod Holds
pub mod Installed
pub mod NotAdded
use riftroute.Base.{
  ℕ, ◌+◌, ◌*◌, String, str_eq, ltb, leb, length, select, if◌then◌else◌, Bool, true, false, ◌&&◌,
  List, [], ◌∷◌, ◌++◌, Option, none, some,
}
use riftroute.Domain.{Route, ManagedRoute}
use riftroute.Routing.Plan.{key}

abbrev pub live_strikes : ℕ
live_strikes = 3

abbrev pub live_window : ℕ
live_window = 600000000000

abbrev pub live_hold : ℕ
live_hold = 1800000000000

abbrev pub live_gap : ℕ
live_gap = 20000000000

-- `seen` has the newest sighting last.
pub record LiveRecord : Type 0 where
  pub route : Route
  pub seen : List ℕ
  pub held_until : ℕ

abbrev pub Recs : Type 0
Recs = String → Option LiveRecord

-- Whether a record is held, and `held`.
abbrev pub is_held : ℕ → Option LiveRecord → Bool
is_held now none = false
is_held now (some r) = ltb now r.held_until

unfoldable pub held : ℕ → Recs → String → Bool
held now recs k = is_held now (recs k)

abbrev pub newest : List ℕ → Option ℕ
newest [] = none
newest (t ∷ []) = some t
newest (t ∷ u ∷ ts) = newest (u ∷ ts)

-- The first loop of `note`: what stopped going missing is forgotten.
unfoldable pub forgotten : ℕ → LiveRecord → Bool
forgotten now r =
    ltb r.held_until now
    && elim (newest r.seen) [ none ↦ true | some t ↦ ltb (t + live_window) now ]

unfoldable pub forget : ℕ → Recs → Recs
unfolding forgotten
forget now recs k = elim (recs k) [
  | none ↦ none
  | some r ↦ if forgotten now r then none else some r
]

-- A sighting closer than the gap to the newest one.
unfoldable pub too_close : ℕ → List ℕ → Bool
too_close now seen = elim (newest seen) [ none ↦ false | some t ↦ ltb now (t + live_gap) ]

-- One route found missing: its record after it, and whether it is held from now.
unfoldable pub sight : ℕ → LiveRecord → LiveRecord × Bool
unfolding too_close
sight now r =
    let seen = select (λ t. leb now (t + live_window)) r.seen ++ now ∷ [] in
    if too_close now r.seen
    then (r, false)
    else if leb live_strikes (length seen)
    then (record r { held_until = now + live_hold; seen = [] }, true)
    else (record r { seen = seen }, false)

unfoldable pub record_of : Recs → ManagedRoute → LiveRecord
record_of recs m = elim (recs (key m)) [
  | none ↦ record { route = m.route; seen = []; held_until = 0 }
  | some r ↦ r
]

abbrev pub set : String → LiveRecord → Recs → Recs
set k r recs j = if str_eq j k then some r else recs j

-- The second loop, and the routes newly held.
unfoldable pub note_from : ℕ → Recs → List ManagedRoute → Recs × List Route
unfolding sight record_of
note_from now recs [] = (recs, [])
note_from now recs (m ∷ ms) =
    let (r, newly) = sight now (record_of recs m) in
    let (last, rest) = note_from now (set (key m) r recs) ms in
    (last, if newly then r.route ∷ rest else rest)

-- `note`.
unfoldable pub note : ℕ → List ManagedRoute → Recs → Recs × List Route
unfolding forget note_from
note now missing recs = note_from now (forget now recs) missing
