-- ===== src/Safety/LiveRepair/Installed.antt =====
-- internal/safety/live.go, `Protocol.installed`: the actual side of a reconcile.
use mathlib.Core.List.{Memᴰ}
use mathlib.Core.Path.{subst}
use riftroute.Base.{
  ℕ, String, if◌then◌else◌, Bool, true, false, not, List, [], ◌∷◌, Option, none, some, select,
  Memᴰ-select, ◌≡◌, refl, sym, ap, arith,
}
use riftroute.Netip.Syntax.{Syntax}
use riftroute.Domain.{Route, ManagedRoute, Family}
use riftroute.Routing.Plan.{key}
use riftroute.Routing.Verify.{Check, Installed, is_tunnel_route, verify_routes, fate}
use riftroute.Routing.Verify.Partition.{own_fate, is_lost, verify_routes-IsPartition}
use riftroute.Safety.LiveRepair.{Recs, held, note}

-- What `installed` is given beside the owned routes; the clock's answer is `now`.
pub record Reading : Type 0 where
  pub syntax : Syntax
  pub now : ℕ
  pub desired : List ManagedRoute
  pub list_routes : Family → Option (List Route)
  pub note : Bool
  pub tunnels_only : Bool

abbrev pub check_of : Reading → Recs → Check
check_of g recs = record {
  syntax = g.syntax;
  desired = g.desired;
  read = g.list_routes;
  held = held g.now recs;
  only = if g.tunnels_only then some is_tunnel_route else none;
}

-- The kept routes, and the records after the call.
unfoldable pub installed : Reading → List ManagedRoute → Recs → List ManagedRoute × Recs
installed g owned recs =
    let v = verify_routes (check_of g recs) owned in
    let counted = select (λ m. not (is_tunnel_route m)) v.missing in
    let noted = (note g.now counted recs).0 in
    (v.kept, elim v.missing [ [] ↦ recs | m ∷ ms ↦ if g.note then noted else recs ])

fate-held :
    (syntax : Syntax) (h : String → Bool) (inst : Option Installed) (o : ManagedRoute)
    → h (key o) ≡ true
    → is_tunnel_route o ≡ false
    → is_lost (fate syntax h inst o) ≡ false
unfolding fate
fate-held syntax h none o e t = refl
fate-held syntax h (some inst) o e t = rw (e, t) (ground arith)

own_fate-held :
    (c : Check) (o : ManagedRoute)
    → c.held (key o) ≡ true
    → is_tunnel_route o ≡ false
    → is_lost (own_fate c o) ≡ false
unfolding own_fate
own_fate-held c o h t = fate-held c.syntax c.held _ o h t

-- An owned route that is held now and is no tunnel's stays among the installed ones.
pub installed-held :
    (g : Reading) (owned : List ManagedRoute) (recs : Recs) (o : ManagedRoute)
    → Memᴰ o owned
    → held g.now recs (key o) ≡ true
    → is_tunnel_route o ≡ false
    → Memᴰ o (installed g owned recs).0
unfolding installed
installed-held g owned recs o m h t =
    subst (Memᴰ o) (sym (verify_routes-IsPartition (check_of g recs) owned).kept) (
      Memᴰ-select (λ (o : ManagedRoute). not (is_lost (own_fate (check_of g recs) o))) owned kept m)
  where
    kept : not (is_lost (own_fate (check_of g recs) o)) ≡ true
    kept = ap not (own_fate-held (check_of g recs) o h t)
