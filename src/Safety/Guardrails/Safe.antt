-- ===== src/Safety/Guardrails/Safe.antt =====
-- What an apply that no guardrail refuses is sure of.
use riftroute.Base.{
  String, Bool, false, List, [], none, some, any, select, All, ◌≡◌, inl, inr, arith, Bool-cases,
}
use riftroute.Netip.{Addr}
use riftroute.Domain.{ManagedRoute}
use riftroute.Safety.Guardrails.{
  gateway_capture, ssh_peer, Guard, vetted, changes, in_main, captures, unresolved, captured,
  cut_off, next_hops, conflicts, check_guardrails,
}
use riftroute.Safety.Guardrails.Routes.{append-none, map-none, any-none, HopOk, next_hops-none}
use riftroute.Safety.Guardrails.Hops.{AllSameHop, IsVettedBy, conflicts-AllSameHop}

pub record Safe (g : Guard) (all : List ManagedRoute) : Type 0 where
  -- With no readable gateway, nothing changes in the main table.
  pub readable : g.phys_gw ≡ none → All (λ d. in_main d ≡ false) (changes g all)
  -- No vetted route captures the gateway, nor the SSH session's peer.
  pub gateway :
      (gw : Addr)
      → g.phys_gw ≡ some gw
      → All (λ d. captures g.syntax gw d ≡ false) (select (vetted g) all)
  pub peer :
      (ip : Addr)
      → g.peer ≡ some ip
      → All (λ d. captures g.syntax ip d ≡ false) (select (vetted g) all)
  -- Every gateway of a vetted route is reached outside the VPN, as far as the kernel tells.
  pub on_link : All (HopOk g) (select (vetted g) all)
  -- No two routes to one destination, one of them vetted, have two next hops.
  pub one_hop : AllSameHop (vetted g) all

unresolved-none :
    (g : Guard) (all : List ManagedRoute)
    → unresolved g all ≡ []
    → g.phys_gw ≡ none
    → any in_main (changes g all) ≡ false
unfolding unresolved
unresolved-none g all e n = elim (Bool-cases (any in_main (changes g all))) [
  | inr f ↦ f
  | inl y ↦ ground arith
]

captured-none :
    (g : Guard) (ds : List ManagedRoute) (gw : Addr)
    → captured g ds ≡ []
    → g.phys_gw ≡ some gw
    → All (λ d. captures g.syntax gw d ≡ false) ds
unfolding captured
captured-none g ds gw e p =
    map-none (λ d. gateway_capture d.route.dst_cidr gw) (captures g.syntax gw) ds (ground arith)

cut_off-none :
    (g : Guard) (ds : List ManagedRoute) (ip : Addr)
    → cut_off g ds ≡ []
    → g.peer ≡ some ip
    → All (λ d. captures g.syntax ip d ≡ false) ds
unfolding cut_off
cut_off-none g ds ip e p = map-none (λ d. ssh_peer ip) (captures g.syntax ip) ds (ground arith)

-- For any guard and any desired routes, where whether the plan adds a route depends on its destination
-- and next hop: if `checkGuardrails` reports nothing, then with no readable gateway no main-table
-- route changes, no vetted main-table route holds the physical gateway or the SSH session's peer,
-- each gateway of such a route parses and, where the lookup answers, is reached outside the VPN, and
-- no two routes to one destination, one of them vetted, have two next hops.
pub check_guardrails-Safe :
    (g : Guard) (all : List ManagedRoute) (v : String → String → Bool)
    → IsVettedBy (vetted g) v all
    → check_guardrails g all ≡ []
    → Safe g all
unfolding check_guardrails
check_guardrails-Safe g all v u e =
    let desired = select (vetted g) all in
    let hops = conflicts (vetted g) (λ k. none) all in
    let (e₀, r₀) = append-none (unresolved g all) _ e in
    let (e₁, r₁) = append-none (captured g desired) _ r₀ in
    let (e₂, r₂) = append-none (next_hops g [] desired) _ r₁ in
    let (e₃, e₄) = append-none hops (cut_off g desired) r₂ in
    record {
      readable = λ n. any-none in_main (changes g all) (unresolved-none g all e₀ n);
      gateway = λ gw p. captured-none g desired gw e₁ p;
      peer = λ ip p. cut_off-none g desired ip e₄ p;
      on_link = next_hops-none g [] desired tt e₂;
      one_hop = conflicts-AllSameHop (vetted g) v all u e₃;
    }
