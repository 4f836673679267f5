-- ===== src/Safety/Guardrails/Routes.antt =====
-- The rules on single routes, when they report nothing.
use riftroute.Base.{
  String, str_eq, str_eq_iff, Bool, true, false, ◌||◌, List, [], ◌∷◌, ◌++◌, map, none, some, any,
  select, All, ◌≡◌, ◌≢◌, refl, inl, inr, arith, Bool-cases, Option-cases,
}
use riftroute.Netip.{Addr}
use riftroute.Domain.{ManagedRoute, RouteDecision}
use riftroute.Routing.Plan.{has_key}
use riftroute.Safety.Guardrails.{Violation, Guard, in_main, hop_violation, next_hops}

pub append-none : (xs ys : List Violation) → xs ++ ys ≡ [] → (xs ≡ []) × (ys ≡ [])
append-none [] ys e = (refl, e)
append-none (x ∷ xs) ys e = cc

-- A rule that reports each selected route has selected none.
pub map-none :
    (f : ManagedRoute → Violation) (p : ManagedRoute → Bool) (ds : List ManagedRoute)
    → map f (select p ds) ≡ []
    → All (λ d. p d ≡ false) ds
map-none f p [] e = tt
map-none f p (d ∷ ds) e = elim (Bool-cases (p d)) [
  | inl y ↦ ground arith
  | inr n ↦ (n, map-none f p ds (ground arith))
]

pub any-none :
    (p : ManagedRoute → Bool) (ds : List ManagedRoute)
    → any p ds ≡ false
    → All (λ d. p d ≡ false) ds
any-none p [] e = tt
any-none p (d ∷ ds) e = (ground arith, any-none p ds (ground arith))

-- What rule 2 asks of a gateway: it parses, and if the kernel can tell, it is reached outside the VPN.
pub record OnLink (g : Guard) (gateway : String) : Type 0 where
  pub address : Addr
  pub parses : g.syntax.parse_addr gateway ≡ some address
  pub reached :
      (dec : RouteDecision)
      → g.lookup address ≡ some dec
      → (dec.reachable ≡ true) × (dec.via_vpn ≡ false)

hop_violation-parsed :
    (g : Guard) (gateway : String) (gw : Addr) (dec : RouteDecision)
    → g.syntax.parse_addr gateway ≡ some gw
    → g.lookup gw ≡ some dec
    → hop_violation g gateway ≡ []
    → (dec.reachable ≡ true) × (dec.via_vpn ≡ false)
unfolding hop_violation
hop_violation-parsed g gateway gw dec p l e = ground arith

hop_violation-unparsed :
    (g : Guard) (gateway : String)
    → g.syntax.parse_addr gateway ≡ none
    → hop_violation g gateway ≢ []
unfolding hop_violation
hop_violation-unparsed g gateway p e = ground arith

hop_violation-none :
    (g : Guard) (gateway : String) → hop_violation g gateway ≡ [] → OnLink g gateway
hop_violation-none g gateway e = elim (Option-cases (g.syntax.parse_addr gateway)) [
  | inl n ↦ absurd (hop_violation-unparsed g gateway n e)
  | inr (gw, p) ↦ record {
    address = gw;
    parses = p;
    reached = λ dec l. hop_violation-parsed g gateway gw dec p l e;
  }
]

-- The gateways checked before are in order.
abbrev AllOnLink : Guard → List String → Type 0
AllOnLink g = All (OnLink g)

checked-OnLink :
    (g : Guard) (k : String) (checked : List String)
    → AllOnLink g checked
    → has_key k checked ≡ true
    → OnLink g k
checked-OnLink g k [] h e = cc
checked-OnLink g k (c ∷ cs) h e = elim (Bool-cases (str_eq k c)) [
  | inl y ↦ rw ((str_eq_iff k c).0 y) h.0
  | inr n ↦ checked-OnLink g k cs h.1 (ground arith)
]

-- A main-table route with a gateway has one in order.
abbrev pub HopOk : Guard → ManagedRoute → Type 0
HopOk g d = in_main d ≡ true → str_eq d.route.gateway "" ≡ false → OnLink g d.route.gateway

pub next_hops-none :
    (g : Guard) (checked : List String) (ds : List ManagedRoute)
    → AllOnLink g checked
    → next_hops g checked ds ≡ []
    → All (HopOk g) ds
unfolding next_hops
next_hops-none g checked [] h e = tt
next_hops-none g checked (d ∷ ds) h e = elim (Bool-cases (in_main d)) [
  | inr n ↦ (λ m. cc, next_hops-none g checked ds h (ground arith))
  | inl y ↦ elim (Bool-cases (str_eq d.route.gateway "" || has_key d.route.gateway checked)) [
    | inl s ↦ (
      λ m q. checked-OnLink g d.route.gateway checked h (ground arith),
      next_hops-none g checked ds h (ground arith),
    )
    | inr s ↦
        let e' : hop_violation g d.route.gateway ++ next_hops g (d.route.gateway ∷ checked) ds
            ≡ [] =
          ground arith in
        let (a, b) =
          append-none (hop_violation g d.route.gateway) (next_hops g (d.route.gateway ∷ checked) ds)
            e' in
        let ok = hop_violation-none g d.route.gateway a in
        (λ m q. ok, next_hops-none g (d.route.gateway ∷ checked) ds (ok, h) b)
  ]
]
