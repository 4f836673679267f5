-- ===== src/Safety/LiveRepair/Holds.antt =====
-- What is held after routes are found missing: what was held, and what is newly held.
use riftroute.Base.{
  ℕ, ◌+◌, ◌≤◌, ◌<◌, String, str_eq, str_eq_iff, any, if◌then◌else◌, Bool, true, false, ◌&&◌, ◌||◌,
  List, [], ◌∷◌, none, some, ◌≡◌, refl, sym, ap, ◌∙◌, inl, inr, arith, Bool-cases, Option-cases,
}
use riftroute.Domain.{Route, ManagedRoute}
use riftroute.Routing.Keys.{route_key}
use riftroute.Routing.Plan.{key}
use riftroute.Safety.LiveRepair.{
  LiveRecord, Recs, is_held, held, forgotten, forget, sight, record_of, set, note_from, note,
  live_hold,
}

-- Every record stands under its route's key.
abbrev pub IsKeyed : Recs → Type 0
IsKeyed recs = (k : String) (r : LiveRecord) → recs k ≡ some r → route_key r.route ≡ k

sight-route : (now : ℕ) (r : LiveRecord) → (sight now r).0.route ≡ r.route
unfolding sight
sight-route now r = ground arith

sight-held :
    (now t : ℕ) (r : LiveRecord)
    → t < now + live_hold
    → is_held t (some (sight now r).0) ≡ (is_held t (some r) || (sight now r).1)
unfolding sight
sight-held now t r l = ground arith

pub record_of_old :
    (recs : Recs) (m : ManagedRoute) (r : LiveRecord) → recs (key m) ≡ some r → record_of recs m ≡ r
unfolding record_of
record_of_old recs m r e = rw (record_of, e) refl

pub record_of_new :
    (recs : Recs) (m : ManagedRoute)
    → recs (key m) ≡ none
    → record_of recs m ≡ record { route = m.route; seen = []; held_until = 0 }
unfolding record_of
record_of_new recs m e = rw (record_of, e) refl

record_of-held :
    (t : ℕ) (recs : Recs) (m : ManagedRoute)
    → is_held t (some (record_of recs m)) ≡ is_held t (recs (key m))
record_of-held t recs m = elim (Option-cases (recs (key m))) [
  | inl e ↦ rw (e, record_of_new recs m e) (ground arith)
  | inr (r, e) ↦ rw (e, record_of_old recs m r e) refl
]

pub record_of-route :
    (recs : Recs) (m : ManagedRoute) → IsKeyed recs → route_key (record_of recs m).route ≡ key m
record_of-route recs m h = elim (Option-cases (recs (key m))) [
  | inl e ↦ ap (λ (r : LiveRecord). route_key r.route) (record_of_new recs m e)
  | inr (r, e) ↦
      ap (λ (r : LiveRecord). route_key r.route) (record_of_old recs m r e) ∙ h (key m) r e
]

pub set-IsKeyed :
    (k : String) (r : LiveRecord) (recs : Recs)
    → route_key r.route ≡ k
    → IsKeyed recs
    → IsKeyed (set k r recs)
set-IsKeyed k r recs e h j s hs = elim (Bool-cases (str_eq j k)) [
  | inr n ↦ h j s (ground arith)
  | inl y ↦
      let same : r ≡ s = ground arith in
      ap (λ (r : LiveRecord). route_key r.route) (sym same) ∙ e ∙ sym ((str_eq_iff j k).0 y)
]

pub sighted-route :
    (now : ℕ) (recs : Recs) (m : ManagedRoute)
    → IsKeyed recs
    → route_key (sight now (record_of recs m)).0.route ≡ key m
sighted-route now recs m h =
    ap route_key (sight-route now (record_of recs m)) ∙ record_of-route recs m h

-- Whether a key is among routes.
abbrev pub among : String → List Route → Bool
among k rts = any (λ rt. str_eq k (route_key rt)) rts

any_newly :
    (k : String) (newly : Bool) (rt : Route) (rest : List Route)
    → among k (if newly then rt ∷ rest else rest)
      ≡ (newly && str_eq k (route_key rt) || among k rest)
any_newly k true rt rest = refl
any_newly k false rt rest = refl

set-held :
    (now t : ℕ) (recs : Recs) (m : ManagedRoute) (k : String)
    → t < now + live_hold
    → is_held t (set (key m) (sight now (record_of recs m)).0 recs k)
      ≡ (is_held t (recs k) || (sight now (record_of recs m)).1 && str_eq k (key m))
set-held now t recs m k l = elim (Bool-cases (str_eq k (key m))) [
  | inr n ↦ rw n (ground arith)
  | inl y ↦ rw y (
      sight-held now t (record_of recs m) l
      ∙ ap (λ b. b || (sight now (record_of recs m)).1)
          (record_of-held t recs m
            ∙ ap (λ (j : String). is_held t (recs j)) (sym ((str_eq_iff k (key m)).0 y)))
      ∙ ground arith)
]

note_from-held :
    (now t : ℕ) (recs : Recs) (ms : List ManagedRoute) (k : String)
    → IsKeyed recs
    → t < now + live_hold
    → is_held t ((note_from now recs ms).0 k)
      ≡ (is_held t (recs k) || among k (note_from now recs ms).1)
unfolding note_from
note_from-held now t recs [] k h l = ground arith
note_from-held now t recs (m ∷ ms) k h l =
    let s = sight now (record_of recs m) in
    let recs' : Recs = set (key m) s.0 recs in
    let rest = (note_from now recs' ms).1 in
    let keyed = sighted-route now recs m h in
    note_from-held now t recs' ms k (set-IsKeyed (key m) s.0 recs keyed h) l
    ∙ ap (λ b. b || among k rest) (set-held now t recs m k l)
    ∙ or_swap (is_held t (recs k)) s.1 (str_eq k (key m)) (among k rest)
    ∙ ap (λ (j : String). is_held t (recs k) || (s.1 && str_eq k j || among k rest)) (sym keyed)
    ∙ ap (λ b. is_held t (recs k) || b) (sym (any_newly k s.1 s.0.route rest))
  where
    or_swap : (a b c d : Bool) → (a || b && c || d) ≡ (a || (b && c || d))
    or_swap a b c d = ground arith

pub forget-none : (now : ℕ) (recs : Recs) (k : String) → recs k ≡ none → forget now recs k ≡ none
unfolding forget
forget-none now recs k e = rw (forget, e) refl

pub forget-some :
    (now : ℕ) (recs : Recs) (k : String) (r : LiveRecord)
    → recs k ≡ some r
    → forget now recs k ≡ (if forgotten now r then none else some r)
unfolding forget
forget-some now recs k r e = rw (forget, e) refl

forget-held :
    (now t : ℕ) (recs : Recs) (k : String)
    → now ≤ t
    → is_held t (forget now recs k) ≡ is_held t (recs k)
unfolding forgotten
forget-held now t recs k l = elim (Option-cases (recs k)) [
  | inl e ↦ rw (e, forget-none now recs k e) refl
  | inr (r, e) ↦ rw (e, forget-some now recs k r e) (ground arith)
]

pub forget-IsKeyed : (now : ℕ) (recs : Recs) → IsKeyed recs → IsKeyed (forget now recs)
unfolding forget
forget-IsKeyed now recs h k r e = elim (Option-cases (recs k)) [
  | inl n ↦ ground arith
  | inr (s, n) ↦
      let same : s ≡ r = ground arith in
      ap (λ (r : LiveRecord). route_key r.route) (sym same) ∙ h k s n
]

-- For records under their routes' keys, routes found missing at a time, and any time t from then on,
-- within the hold: a key is held at t after `note` exactly if it was held at t before, or `note`
-- returned its route. So noting drops no hold, and each route that it returns is held throughout.
pub note-held :
    (now t : ℕ) (missing : List ManagedRoute) (recs : Recs) (k : String)
    → IsKeyed recs
    → now ≤ t
    → t < now + live_hold
    → held t (note now missing recs).0 k ≡ (held t recs k || among k (note now missing recs).1)
unfolding note held
note-held now t missing recs k h l u =
    note_from-held now t (forget now recs) missing k (forget-IsKeyed now recs h) u
    ∙ ap (λ b. b || among k (note_from now (forget now recs) missing).1)
        (forget-held now t recs k l)
