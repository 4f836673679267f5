-- ===== src/Routing/Simulate/Drift.antt =====
-- When two decisions agree: `Drift` answers false on an equivalence relation.
use riftroute.Base.{str_eq_iff, Bool, true, false, ◌≡◌, ◌↔◌, refl, sym, ◌∙◌, arith}
use riftroute.Domain.{RouteDecision}
use riftroute.Routing.Simulate.{drift}

-- Traffic is reached or refused alike, and reached traffic leaves by the same interface, and through
-- the VPN or not alike.
pub record Agree (a b : RouteDecision) : Type 0 where
  pub reachable : a.reachable ≡ b.reachable
  pub rejected : a.rejected ≡ b.rejected
  pub iface : a.reachable ≡ true → a.iface ≡ b.iface
  pub via_vpn : a.reachable ≡ true → a.via_vpn ≡ b.via_vpn

drift-Agree : (a b : RouteDecision) → drift a b ≡ false → Agree a b
unfolding drift
drift-Agree a b h = ground (arith, str_eq_iff a.iface b.iface)

Agree-drift : (a b : RouteDecision) → Agree a b → drift a b ≡ false
unfolding drift
Agree-drift a b h = ground (arith, str_eq_iff a.iface b.iface, h.iface, h.via_vpn)

Agree-symm : (a b : RouteDecision) → Agree a b → Agree b a
Agree-symm a b h = record {
  reachable = sym h.reachable;
  rejected = sym h.rejected;
  iface = λ r. sym (h.iface (h.reachable ∙ r));
  via_vpn = λ r. sym (h.via_vpn (h.reachable ∙ r));
}

Agree-trans : (a b c : RouteDecision) → Agree a b → Agree b c → Agree a c
Agree-trans a b c h k = record {
  reachable = h.reachable ∙ k.reachable;
  rejected = h.rejected ∙ k.rejected;
  iface = λ r. h.iface r ∙ k.iface (sym h.reachable ∙ r);
  via_vpn = λ r. h.via_vpn r ∙ k.via_vpn (sym h.reachable ∙ r);
}

false_ext : (a b : Bool) → (a ≡ false → b ≡ false) → (b ≡ false → a ≡ false) → a ≡ b
false_ext true true f g = refl
false_ext true false f g = g refl
false_ext false b f g = sym (f refl)

drift_comm : (a b : RouteDecision) → drift a b ≡ drift b a
drift_comm a b =
    false_ext (drift a b) (drift b a) (λ h. Agree-drift b a (Agree-symm a b (drift-Agree a b h)))
      (λ h. Agree-drift a b (Agree-symm b a (drift-Agree b a h)))

-- For any two decisions: there is no drift between them exactly when they agree, and drift is the
-- same both ways.
pub drift_iff : (a b : RouteDecision) → ((drift a b ≡ false) ↔ Agree a b) × (drift a b ≡ drift b a)
drift_iff a b = ((drift-Agree a b, Agree-drift a b), drift_comm a b)
