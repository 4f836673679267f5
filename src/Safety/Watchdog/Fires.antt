-- ===== src/Safety/Watchdog/Fires.antt =====
-- When the watchdog fires: exactly in an outage of as many rounds as it is set to.
use riftroute.Base.{
  ℕ, suc, ◌+◌, ◌≤◌, ◌<◌, String, leb, Bool, true, false, List, [], ◌∷◌, ◌++◌, all, length, ◌≡◌, ◌↔◌,
  ◌⊎◌, inl, inr, refl, ap, arith, Bool-cases, leb→le,
}
use riftroute.Safety.Watchdog.{
  Watchdog, new_watchdog, all_unreachable, Event, canceled, tick, fired, run_from, run,
}

abbrev pub is_tick : Event → Bool
is_tick canceled = false
is_tick (tick probe) = true

-- A round in which no anchor answered.
abbrev pub is_lost_round : Watchdog → Event → Bool
is_lost_round w canceled = false
is_lost_round w (tick probe) = all_unreachable w probe

-- An outage: `n` lost rounds in a row, with nothing but ticks before them.
pub record Outage (w : Watchdog) (n : ℕ) (es : List Event) : Type 0 where
  pub before : List Event
  pub lost : List Event
  pub after : List Event
  pub split : es ≡ before ++ (lost ++ after)
  pub ticks : all is_tick before ≡ true
  pub all_lost : all (is_lost_round w) lost ≡ true
  pub enough : length lost ≡ n

-- An outage that the events begin with, `c` of its rounds gone.
record Begun (w : Watchdog) (c n : ℕ) (es : List Event) : Type 0 where
  lost : List Event
  after : List Event
  split : es ≡ lost ++ after
  all_lost : all (is_lost_round w) lost ≡ true
  enough : c + length lost ≡ n

later :
    (w : Watchdog) (n : ℕ) (p : String → Bool) (es : List Event)
    → Outage w n es
    → Outage w n (tick p ∷ es)
later w n p es o = record {
  before = tick p ∷ o.before;
  lost = o.lost;
  after = o.after;
  split = ap (◌∷◌ (tick p)) o.split;
  ticks = o.ticks;
  all_lost = o.all_lost;
  enough = o.enough;
}

at_once : (w : Watchdog) (n : ℕ) (es : List Event) → Begun w 0 n es → Outage w n es
at_once w n es b = record {
  before = [];
  lost = b.lost;
  after = b.after;
  split = b.split;
  ticks = refl;
  all_lost = b.all_lost;
  enough = omega (arith, b.enough);
}

fired→outage :
    (w : Watchdog) (c : ℕ) (es : List Event)
    → c < w.k
    → run_from w c es ≡ fired
    → Begun w c w.k es ⊎ Outage w w.k es
unfolding run_from
fired→outage w c [] l e = cc
fired→outage w c (canceled ∷ es) l e = cc
fired→outage w c (tick p ∷ es) l e = elim (Bool-cases (all_unreachable w p)) [
  | inr n ↦
      let e' : run_from w 0 es ≡ fired = ground arith in
      inr (
        later w w.k p es
          (elim (fired→outage w 0 es (omega arith) e') [ inl b ↦ at_once w w.k es b | inr o ↦ o ]))
  | inl y ↦ elim (Bool-cases (leb w.k (suc c))) [
    | inl f ↦
        let le = leb→le w.k (suc c) f in
        inl (record {
          lost = tick p ∷ [];
          after = es;
          split = refl;
          all_lost = rw y refl;
          enough = omega arith;
        })
    | inr f ↦
        let e' : run_from w (suc c) es ≡ fired = ground arith in
        elim (fired→outage w (suc c) es (ground arith) e') [
          | inr o ↦ inr (later w w.k p es o)
          | inl b ↦ inl (record {
            lost = tick p ∷ b.lost;
            after = b.after;
            split = ap (◌∷◌ (tick p)) b.split;
            all_lost = rw (y, b.all_lost) refl;
            enough = omega (arith, b.enough);
          })
        ]
  ]
]

lost→fired :
    (w : Watchdog) (c : ℕ) (lost after : List Event)
    → c < w.k
    → all (is_lost_round w) lost ≡ true
    → w.k ≤ c + length lost
    → run_from w c (lost ++ after) ≡ fired
unfolding run_from
lost→fired w c [] after l a n = ground arith
lost→fired w c (canceled ∷ lost) after l a n = cc
lost→fired w c (tick p ∷ lost) after l a n = elim (Bool-cases (leb w.k (suc c))) [
  | inl f ↦ ground arith
  | inr f ↦ ground (arith, lost→fired w (suc c) lost after)
]

outage→fired :
    (w : Watchdog) (c : ℕ) (before lost after : List Event)
    → c < w.k
    → all is_tick before ≡ true
    → all (is_lost_round w) lost ≡ true
    → length lost ≡ w.k
    → run_from w c (before ++ (lost ++ after)) ≡ fired
unfolding run_from
outage→fired w c [] lost after l t a n = lost→fired w c lost after l a (omega arith)
outage→fired w c (canceled ∷ before) lost after l t a n = cc
outage→fired w c (tick p ∷ before) lost after l t a n = elim (Bool-cases (all_unreachable w p)) [
  | inr y ↦ ground (arith, outage→fired w 0 before lost after)
  | inl y ↦ elim (Bool-cases (leb w.k (suc c))) [
    | inl f ↦ ground arith
    | inr f ↦ ground (arith, outage→fired w (suc c) before lost after)
  ]
]

-- For a watchdog made for any anchors and any k, and any events: it fires exactly if the events hold
-- as many lost rounds in a row as k says (one, if k is 0), before the context ends.
pub run_fired_iff :
    (anchors : List String) (k : ℕ) (es : List Event)
    → (run (new_watchdog anchors k) es ≡ fired)
      ↔ Outage (new_watchdog anchors k) (new_watchdog anchors k).k es
unfolding run
run_fired_iff anchors k es = (to, from)
  where
    w : Watchdog
    w = new_watchdog anchors k

    positive : 0 < w.k
    positive = ground arith

    to : run_from w 0 es ≡ fired → Outage w w.k es
    to e = elim (fired→outage w 0 es positive e) [ inl b ↦ at_once w w.k es b | inr o ↦ o ]

    from : Outage w w.k es → run_from w 0 es ≡ fired
    from o =
        rw o.split (outage→fired w 0 o.before o.lost o.after positive o.ticks o.all_lost o.enough)
