-- ===== src/Safety/LiveRepair/Strikes.antt =====
-- Why a route is held: it was found missing three times, apart, within the window.
use mathlib.Core.Path.{subst}
use riftroute.Base.{
  ℕ, ◌+◌, ◌≤◌, String, str_eq, str_eq_iff, ltb, leb, if◌then◌else◌, Bool, true, false, List, [],
  ◌∷◌, map, none, some, All, ◌≡◌, ◌⊎◌, refl, sym, inl, inr, arith, Bool-cases, Option-cases,
}
use riftroute.Domain.{Route, ManagedRoute}
use riftroute.Routing.Keys.{route_key}
use riftroute.Routing.Plan.{key, has_key}
use riftroute.Safety.LiveRepair.{
  LiveRecord, Recs, forget, too_close, sight, record_of, set, note_from, note, live_window,
  live_gap,
}
use riftroute.Safety.LiveRepair.Holds.{
  IsKeyed, record_of_old, record_of_new, set-IsKeyed, sighted-route, forget-none, forget-some,
  forget-IsKeyed,
}

-- One call of `note`.
pub record Note : Type 0 where
  pub at : ℕ
  pub missing : List ManagedRoute

-- The records after calls of `note`, the newest first.
unfoldable pub run_notes : List Note → Recs
run_notes [] = λ k. none
run_notes (n ∷ older) = (note n.at n.missing (run_notes older)).0

-- A call at the time had a route of the key among the missing.
abbrev pub Sighted : List Note → String → ℕ → Type 0
Sighted [] k t = ⊥
Sighted (n ∷ older) k t = ((n.at ≡ t) × (has_key k (map key n.missing) ≡ true)) ⊎ Sighted older k t

-- Three sightings up to the time, no two of them closer than the gap, all within the window.
pub record Struck (h : List Note) (k : String) (now : ℕ) : Type 0 where
  pub earlier : ℕ
  pub later : ℕ
  pub sighted_earlier : Sighted h k earlier
  pub sighted_later : Sighted h k later
  pub sighted_now : Sighted h k now
  pub apart : earlier + live_gap ≤ later
  pub apart_now : later + live_gap ≤ now
  pub recent : now ≤ earlier + live_window

-- The sightings that a record keeps: at most two, apart.
abbrev Backed : List Note → String → List ℕ → Type 0
Backed h k [] = Unit
Backed h k (t ∷ []) = Sighted h k t
Backed h k (t ∷ u ∷ []) = Sighted h k t × Sighted h k u × (t + live_gap ≤ u)
Backed h k (t ∷ u ∷ v ∷ ts) = ⊥

Backed-older :
    (n : Note) (h : List Note) (k : String) (ts : List ℕ) → Backed h k ts → Backed (n ∷ h) k ts
Backed-older n h k [] b = tt
Backed-older n h k (t ∷ []) b = inr b
Backed-older n h k (t ∷ u ∷ []) (a, b, c) = (inr a, inr b, c)
Backed-older n h k (t ∷ u ∷ v ∷ ts) b = b

abbrev record_at : Route → List ℕ → ℕ → LiveRecord
record_at rt ts until = record { route = rt; seen = ts; held_until = until }

-- A sighting keeps a record backed, and strikes only as told.
abbrev Sound : List Note → String → ℕ → LiveRecord × Bool → Type 0
Sound h k now r = Backed h k r.0.seen × (r.1 ≡ true → Struck h k now)

sight-Sound :
    (h : List Note) (k : String) (now : ℕ) (rt : Route) (ts : List ℕ) (until : ℕ)
    → Sighted h k now
    → Backed h k ts
    → Sound h k now (sight now (record_at rt ts until))
unfolding sight too_close
sight-Sound h k now rt [] until s b = (s, λ e. cc)
sight-Sound h k now rt (t ∷ []) until s b = elim (Bool-cases (ltb now (t + live_gap))) [
  | inl y ↦ rw y (b, λ e. cc)
  | inr n ↦ elim (Bool-cases (leb now (t + live_window))) [
    | inl w ↦ rw (n, w) ((b, s, ground arith), λ e. cc)
    | inr w ↦ rw (n, w) (s, λ e. cc)
  ]
]
sight-Sound h k now rt (t ∷ u ∷ []) until s (a, b, c) = elim (Bool-cases (ltb now (u + live_gap))) [
  | inl y ↦ rw y ((a, b, c), λ e. cc)
  | inr n ↦ elim (Bool-cases (leb now (t + live_window))) [
    | inl w ↦ elim (Bool-cases (leb now (u + live_window))) [
      | inl v ↦
          rw (n, w, v)
            (
              tt,
              λ e. record {
                earlier = t;
                later = u;
                sighted_earlier = a;
                sighted_later = b;
                sighted_now = s;
                apart = c;
                apart_now = ground arith;
                recent = ground arith;
              },
            )
      | inr v ↦ rw (n, w, v) ((a, s, ground arith), λ e. cc)
    ]
    | inr w ↦ elim (Bool-cases (leb now (u + live_window))) [
      | inl v ↦ rw (n, w, v) ((b, s, ground arith), λ e. cc)
      | inr v ↦ rw (n, w, v) (s, λ e. cc)
    ]
  ]
]
sight-Sound h k now rt (t ∷ u ∷ v ∷ ts) until s b = elim b [ ]

AllBacked : List Note → Recs → Type 0
AllBacked h recs = (k : String) (r : LiveRecord) → recs k ≡ some r → Backed h k r.seen

record_of-Backed :
    (h : List Note) (recs : Recs) (m : ManagedRoute)
    → AllBacked h recs
    → Backed h (key m) (record_of recs m).seen
unfolding AllBacked
record_of-Backed h recs m b = elim (Option-cases (recs (key m))) [
  | inl e ↦ subst (λ (r : LiveRecord). Backed h (key m) r.seen) (sym (record_of_new recs m e)) tt
  | inr (r, e) ↦
      subst (λ (r : LiveRecord). Backed h (key m) r.seen) (sym (record_of_old recs m r e))
        (b (key m) r e)
]

set-AllBacked :
    (h : List Note) (k : String) (r : LiveRecord) (recs : Recs)
    → Backed h k r.seen
    → AllBacked h recs
    → AllBacked h (set k r recs)
unfolding AllBacked
set-AllBacked h k r recs b bs j s e = elim (Bool-cases (str_eq j k)) [
  | inr n ↦ bs j s (ground arith)
  | inl y ↦
      let same : r ≡ s = ground arith in
      subst (λ (i : String). Backed h i s.seen) (sym ((str_eq_iff j k).0 y))
        (subst (λ (r : LiveRecord). Backed h k r.seen) same b)
]

forget-AllBacked :
    (h : List Note) (now : ℕ) (recs : Recs) → AllBacked h recs → AllBacked h (forget now recs)
unfolding AllBacked
forget-AllBacked h now recs b k r e = elim (Option-cases (recs k)) [
  | inl n ↦ let no = forget-none now recs k n in cc
  | inr (s, n) ↦
      let kept = forget-some now recs k s n in
      let same : s ≡ r = ground arith in
      subst (λ (r : LiveRecord). Backed h k r.seen) same (b k s n)
]

AllStruck : List Note → ℕ → List Route → Type 0
AllStruck h now = All (λ (rt : Route). Struck h (route_key rt) now)

AllStruck-newly :
    (h : List Note) (now : ℕ) (newly : Bool) (rt : Route) (rest : List Route)
    → (newly ≡ true → Struck h (route_key rt) now)
    → AllStruck h now rest
    → AllStruck h now (if newly then rt ∷ rest else rest)
unfolding AllStruck
AllStruck-newly h now true rt rest f s = (f refl, s)
AllStruck-newly h now false rt rest f s = s

note_from-Struck :
    (h : List Note) (now : ℕ) (recs : Recs) (ms : List ManagedRoute)
    → All (λ (m : ManagedRoute). Sighted h (key m) now) ms
    → IsKeyed recs
    → AllBacked h recs
    → AllStruck h now (note_from now recs ms).1
      × (IsKeyed (note_from now recs ms).0 × AllBacked h (note_from now recs ms).0)
unfolding note_from AllStruck
note_from-Struck h now recs [] ss q b = (tt, (q, b))
note_from-Struck h now recs (m ∷ ms) ss q b =
    let old = record_of recs m in
    let s = sight now old in
    let keyed = sighted-route now recs m q in
    let sound =
      sight-Sound h (key m) now old.route old.seen old.held_until ss.0
        (record_of-Backed h recs m b) in
    let (struck, rest) =
      note_from-Struck h now (set (key m) s.0 recs) ms ss.1 (set-IsKeyed (key m) s.0 recs keyed q)
        (set-AllBacked h (key m) s.0 recs sound.0 b) in
    (
      AllStruck-newly h now s.1 s.0.route _
          (λ e. subst (λ (k : String). Struck h k now) (sym keyed) (sound.1 e)) struck,
      rest,
    )

-- The keys that a call sights are those of its missing routes.
Sighted-All :
    (n : Note) (older : List Note) (ms : List ManagedRoute)
    → All (λ (m : ManagedRoute). has_key (key m) (map key n.missing) ≡ true) ms
    → All (λ (m : ManagedRoute). Sighted (n ∷ older) (key m) n.at) ms
Sighted-All n older [] h = tt
Sighted-All n older (m ∷ ms) h = (inl (refl, h.0), Sighted-All n older ms h.1)

own_keys :
    (ms : List ManagedRoute) → All (λ (m : ManagedRoute). has_key (key m) (map key ms) ≡ true) ms
own_keys [] = tt
own_keys (m ∷ ms) = (ground (arith, str_eq_iff (key m) (key m)), more ms (own_keys ms))
  where
    more :
        (xs : List ManagedRoute)
        → All (λ (x : ManagedRoute). has_key (key x) (map key ms) ≡ true) xs
        → All (λ (x : ManagedRoute). has_key (key x) (map key (m ∷ ms)) ≡ true) xs
    more [] h = tt
    more (x ∷ xs) h = (ground arith, more xs h.1)

run_notes_sound : (h : List Note) → IsKeyed (run_notes h) × AllBacked h (run_notes h)
unfolding run_notes AllBacked note
run_notes_sound [] = ((λ k r e. cc), (λ k r e. cc))
run_notes_sound (n ∷ older) =
    let (q, b) = run_notes_sound older in
    (note_from-Struck (n ∷ older) n.at (forget n.at (run_notes older)) n.missing
      (Sighted-All n older n.missing (own_keys n.missing)) (forget-IsKeyed n.at (run_notes older) q)
      (forget-AllBacked (n ∷ older) n.at (run_notes older)
        (λ k r e. Backed-older n older k r.seen (b k r e)))).1

-- After any calls of `note`, the newest first: a route that one more call starts holding was found
-- missing three times, at that call and at two earlier times, each two of them apart by the gap or
-- more, and all within the window.
pub note-Struck :
    (now : ℕ) (missing : List ManagedRoute) (older : List Note)
    → All
        (λ (rt : Route). Struck (record { at = now; missing = missing } ∷ older) (route_key rt) now)
        (note now missing (run_notes older)).1
unfolding note AllStruck AllBacked
note-Struck now missing older =
    let n : Note = record { at = now; missing = missing } in
    let (q, b) = run_notes_sound older in
    (note_from-Struck (n ∷ older) now (forget now (run_notes older)) missing
      (Sighted-All n older missing (own_keys missing)) (forget-IsKeyed now (run_notes older) q)
      (forget-AllBacked (n ∷ older) now (run_notes older)
        (λ k r e. Backed-older n older k r.seen (b k r e)))).0
