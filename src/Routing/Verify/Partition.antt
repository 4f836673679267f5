-- ===== src/Routing/Verify/Partition.antt =====
-- `VerifyRoutes` decides every owned route by itself; the cache of kernel reads changes nothing but
-- how often the kernel is read.
use mathlib.Core.List.{Memᴰ}
use mathlib.Core.Path.{subst}
use riftroute.Base.{
  str_eq, str_eq_iff, if◌then◌else◌, Bool, true, false, not, List, [], ◌∷◌, Option, none, some,
  select, Memᴰ-select, ◌≡◌, refl, sym, ap, ◌∙◌, inl, inr, arith, Bool-cases, Option-cases,
}
use riftroute.Domain.{ManagedRoute, Family}
use riftroute.Routing.Verify.{
  Installed, has, outranked, is_tunnel_route, Verified, Fate, keep, take_over, lose, fate, settle,
  Cache, cached, Check, looked_up, read_index, fetch, verify_from, verify_routes,
}

-- What becomes of a route when the kernel is read for it alone.
unfoldable pub own_fate : Check → ManagedRoute → Fate
own_fate c o = fate c.syntax c.held (if looked_up c o then read_index c o.route.family else none) o

abbrev pub is_lost : Fate → Bool
is_lost keep = false
is_lost take_over = false
is_lost lose = true

abbrev pub is_taken : Fate → Bool
is_taken keep = false
is_taken take_over = true
is_taken lose = false

-- Every entry of the cache is what reading its family gives.
abbrev IsCurrent : Check → Cache → Type 0
IsCurrent c [] = Unit
IsCurrent c ((f, inst) ∷ cs) = (inst ≡ read_index c f) × IsCurrent c cs

cached-current :
    (c : Check) (cache : Cache) (f : Family) (inst : Option Installed)
    → IsCurrent c cache
    → cached f cache ≡ some inst
    → inst ≡ read_index c f
cached-current c [] f inst h e = cc
cached-current c ((g, i) ∷ cs) f inst h e = elim (Bool-cases (str_eq f g)) [
  | inr n ↦ cached-current c cs f inst h.1 (ground arith)
  | inl y ↦
      let same : i ≡ inst = ground arith in
      sym same ∙ h.0 ∙ ap (read_index c) (sym ((str_eq_iff f g).0 y))
]

fetch-IsCurrent :
    (c : Check) (cache : Cache) (o : ManagedRoute)
    → IsCurrent c cache
    → ((fetch c cache o).0 ≡ (if looked_up c o then read_index c o.route.family else none))
      × IsCurrent c (fetch c cache o).1
unfolding fetch
fetch-IsCurrent c cache o h = elim (Bool-cases (looked_up c o)) [
  | inr n ↦ rw n (refl, h)
  | inl y ↦ elim (Option-cases (cached o.route.family cache)) [
    | inl e ↦ rw (y, e) (refl, (refl, h))
    | inr (inst, e) ↦ rw (y, e) (cached-current c cache o.route.family inst h e, h)
  ]
]

-- The three results, each a selection of the owned routes by their own fates.
pub record IsPartition (c : Check) (owned : List ManagedRoute) (v : Verified) : Type 0 where
  pub kept : v.kept ≡ select (λ o. not (is_lost (own_fate c o))) owned
  pub missing : v.missing ≡ select (λ o. is_lost (own_fate c o)) owned
  pub taken : v.taken ≡ select (λ o. is_taken (own_fate c o)) owned

settle-IsPartition :
    (c : Check) (o : ManagedRoute) (os : List ManagedRoute) (v : Verified) (f : Fate)
    → own_fate c o ≡ f
    → IsPartition c os v
    → IsPartition c (o ∷ os) (settle f o v)
settle-IsPartition c o os v keep e h = record {
  kept = rw e (ap (◌∷◌ o) h.kept);
  missing = rw e h.missing;
  taken = rw e h.taken;
}
settle-IsPartition c o os v take_over e h = record {
  kept = rw e (ap (◌∷◌ o) h.kept);
  missing = rw e h.missing;
  taken = rw e (ap (◌∷◌ o) h.taken);
}
settle-IsPartition c o os v lose e h = record {
  kept = rw e h.kept;
  missing = rw e (ap (◌∷◌ o) h.missing);
  taken = rw e h.taken;
}

verify_from-IsPartition :
    (c : Check) (cache : Cache) (owned : List ManagedRoute)
    → IsCurrent c cache
    → IsPartition c owned (verify_from c cache owned).0
unfolding verify_from own_fate
verify_from-IsPartition c cache [] h = record { kept = refl; missing = refl; taken = refl }
verify_from-IsPartition c cache (o ∷ os) h =
    let (inst, current) = fetch-IsCurrent c cache o h in
    settle-IsPartition c o os (verify_from c (fetch c cache o).1 os).0
      (fate c.syntax c.held (fetch c cache o).0 o)
      (ap (λ (i : Option Installed). fate c.syntax c.held i o) (sym inst))
      (verify_from-IsPartition c (fetch c cache o).1 os current)

-- For any check and any owned routes, with f(o) what the switch decides of a route o when its family
-- is read for it alone: the kept routes are the owned ones not lost by f, the missing ones those lost
-- by f, and the taken ones those taken by f, each in their order. So every owned route is either kept
-- or missing, and the cache of reads changes no result.
pub verify_routes-IsPartition :
    (c : Check) (owned : List ManagedRoute) → IsPartition c owned (verify_routes c owned)
unfolding verify_routes
verify_routes-IsPartition c owned = verify_from-IsPartition c [] owned tt

own_fate_lose :
    (c : Check) (o : ManagedRoute) (inst : Installed)
    → is_tunnel_route o ≡ true
    → looked_up c o ≡ true
    → read_index c o.route.family ≡ some inst
    → has c.syntax inst o.route ≡ false
    → outranked c.syntax inst o.route ≡ false
    → own_fate c o ≡ lose
unfolding own_fate fate
own_fate_lose c o inst t l r h k = rw (l, r, h, k, t) (ground arith)

-- A tunnel's route is put back every time: if it is looked up, its family's read succeeds with index
-- inst, and the kernel neither has it nor holds a route that outranks it, then it is missing, whatever
-- is held.
pub verify_routes-tunnel :
    (c : Check) (owned : List ManagedRoute) (o : ManagedRoute) (inst : Installed)
    → Memᴰ o owned
    → is_tunnel_route o ≡ true
    → looked_up c o ≡ true
    → read_index c o.route.family ≡ some inst
    → has c.syntax inst o.route ≡ false
    → outranked c.syntax inst o.route ≡ false
    → Memᴰ o (verify_routes c owned).missing
verify_routes-tunnel c owned o inst m t l r h k =
    subst (Memᴰ o) (sym (verify_routes-IsPartition c owned).missing)
      (Memᴰ-select (λ (o : ManagedRoute). is_lost (own_fate c o)) owned (ap is_lost lost) m)
  where
    lost : own_fate c o ≡ lose
    lost = own_fate_lose c o inst t l r h k

read_index_unread : (c : Check) (f : Family) → c.read f ≡ none → read_index c f ≡ none
unfolding read_index
read_index_unread c f e = rw (read_index, e) refl

own_fate_unread :
    (c : Check) (o : ManagedRoute) → ((f : Family) → c.read f ≡ none) → own_fate c o ≡ keep
unfolding own_fate fate
own_fate_unread c o h = elim (Bool-cases (looked_up c o)) [
  | inl y ↦ rw (y, read_index_unread c o.route.family (h o.route.family)) refl
  | inr n ↦ rw n refl
]

-- With no read of the kernel succeeding, every owned route is kept as recorded, and none is missing
-- or taken.
pub verify_routes_unread :
    (c : Check) (owned : List ManagedRoute)
    → ((f : Family) → c.read f ≡ none)
    → verify_routes c owned ≡ record { kept = owned; missing = []; taken = [] }
verify_routes_unread c owned h =
    let p = verify_routes-IsPartition c owned in
    λ i. record {
      kept = (p.kept ∙ all owned) i;
      missing = (p.missing ∙ none_lost owned) i;
      taken = (p.taken ∙ none_taken owned) i;
    }
  where
    all : (os : List ManagedRoute) → select (λ o. not (is_lost (own_fate c o))) os ≡ os
    all [] = refl
    all (o ∷ os) = rw (own_fate_unread c o h) (ap (◌∷◌ o) (all os))

    none_lost : (os : List ManagedRoute) → select (λ o. is_lost (own_fate c o)) os ≡ []
    none_lost [] = refl
    none_lost (o ∷ os) = rw (own_fate_unread c o h) (none_lost os)

    none_taken : (os : List ManagedRoute) → select (λ o. is_taken (own_fate c o)) os ≡ []
    none_taken [] = refl
    none_taken (o ∷ os) = rw (own_fate_unread c o h) (none_taken os)

-- The families that the loop has read, each once.
abbrev pub ReadOnce : Cache → Type 0
ReadOnce [] = Unit
ReadOnce ((f, inst) ∷ cs) = (cached f cs ≡ none) × ReadOnce cs

fetch-ReadOnce :
    (c : Check) (cache : Cache) (o : ManagedRoute) → ReadOnce cache → ReadOnce (fetch c cache o).1
unfolding fetch
fetch-ReadOnce c cache o h = elim (Bool-cases (looked_up c o)) [
  | inr n ↦ rw n h
  | inl y ↦ elim (Option-cases (cached o.route.family cache)) [
    | inl e ↦ rw (y, e) (e, h)
    | inr (inst, e) ↦ rw (y, e) h
  ]
]

-- For any check, any owned routes and a cache with each family at most once: after the loop of
-- `VerifyRoutes`, which adds an entry at each read, the cache still has each family at most once. So,
-- from the empty cache, no family is read twice.
pub verify_from-ReadOnce :
    (c : Check) (cache : Cache) (owned : List ManagedRoute)
    → ReadOnce cache
    → ReadOnce (verify_from c cache owned).1
unfolding verify_from
verify_from-ReadOnce c cache [] h = h
verify_from-ReadOnce c cache (o ∷ os) h =
    verify_from-ReadOnce c (fetch c cache o).1 os (fetch-ReadOnce c cache o h)
