-- ===== src/Routing/RulesBeside/Pieces.antt =====
-- What the pieces of a rule select, and which rules come out.
use riftroute.Base.{
  ==_iff, ◌<>◌, Bool, true, false, not, ◌&&◌, bool_eq→eq, List, [], ◌∷◌, map, none, some, any, All,
  ◌≡◌, refl, ap, ◌∙◌, inl, inr, arith, Bool-cases,
}
use riftroute.Netip.{Addr, Prefix, prefix_eq, masked, contains}
use riftroute.Netip.Syntax.{Syntax}
use riftroute.Netip.Blocks.{contains-masked}
use riftroute.Domain.{ManagedRule}
use riftroute.Routing.Nets.{around_tunnels}
use riftroute.Routing.Nets.Coverage.{AllValid, covers-around_tunnels}
use riftroute.Routing.Aggregate.Coverage.{covers}
use riftroute.Routing.RulesBeside.{rule_destination, cut_to, cut_rule, pieces}

-- Whether a rule selects an address by its destination.
abbrev pub selects : Syntax → Addr → ManagedRule → Bool
selects syntax a r = elim (rule_destination syntax r.rule.selector) [
  | none ↦ false
  | some p ↦ contains p a
]

-- The selectors of these parts read back as the parts.
abbrev pub ReadsBack : Syntax → List Prefix → Type 0
ReadsBack syntax = All (λ q. rule_destination syntax ("to " <> syntax.print_prefix q) ≡ some q)

prefix_eq-contains : (p q : Prefix) (a : Addr) → prefix_eq q p ≡ true → contains q a ≡ contains p a
unfolding prefix_eq contains
prefix_eq-contains p q a h =
    let f : q.is4 ≡ p.is4 = bool_eq→eq q.is4 p.is4 (ground arith) in
    let v : q.value ≡ p.value = (==_iff q.value p.value).0 (ground arith) in
    let b : q.bits ≡ p.bits = (==_iff q.bits p.bits).0 (ground arith) in rw (f, v, b) refl

selects-destination :
    (syntax : Syntax) (a : Addr) (r : ManagedRule) (p : Prefix)
    → rule_destination syntax r.rule.selector ≡ some p
    → selects syntax a r ≡ contains p a
selects-destination syntax a r p h = rw (selects, h) refl

cut_to-selects :
    (syntax : Syntax) (a : Addr) (r : ManagedRule) (q : Prefix)
    → rule_destination syntax ("to " <> syntax.print_prefix q) ≡ some q
    → selects syntax a (cut_to syntax r q) ≡ contains q a
cut_to-selects syntax a r q h = selects-destination syntax a (cut_to syntax r q) q h

map-selects :
    (syntax : Syntax) (a : Addr) (r : ManagedRule) (qs : List Prefix)
    → ReadsBack syntax qs
    → any (selects syntax a) (map (cut_to syntax r) qs) ≡ covers qs a
map-selects syntax a r [] h = refl
map-selects syntax a r (q ∷ qs) h =
    rw (cut_to-selects syntax a r q h.0, map-selects syntax a r qs h.1) refl

cut_rule-selects :
    (syntax : Syntax) (a : Addr) (r : ManagedRule) (p : Prefix) (qs : List Prefix)
    → rule_destination syntax r.rule.selector ≡ some p
    → ReadsBack syntax qs
    → any (selects syntax a) (cut_rule syntax r p qs) ≡ covers qs a
unfolding cut_rule
cut_rule-selects syntax a r p [] d h = refl
cut_rule-selects syntax a r p (q ∷ []) d h = elim (Bool-cases (prefix_eq q (masked p))) [
  | inl y ↦
      rw
        (
          y,
          selects-destination syntax a r p d,
          prefix_eq-contains (masked p) q a y,
          contains-masked p a,
        )
        refl
  | inr n ↦ rw (n, cut_to-selects syntax a r q h.0) refl
]
cut_rule-selects syntax a r p (q ∷ q' ∷ qs) d h = map-selects syntax a r (q ∷ q' ∷ qs) h

pieces-cut :
    (syntax : Syntax) (nets : List Prefix) (r : ManagedRule) (p : Prefix)
    → rule_destination syntax r.rule.selector ≡ some p
    → pieces syntax nets r ≡ cut_rule syntax r p (around_tunnels (p ∷ []) nets)
unfolding pieces
pieces-cut syntax nets r p d = rw (pieces, d) refl

-- For any valid networks and any rule with a destination, where the selectors of the parts left of it
-- read back as the parts: what the rule becomes selects exactly the addresses that it selected and that
-- lie in no network.
pub pieces-selects :
    (syntax : Syntax) (nets : List Prefix) (r : ManagedRule) (p : Prefix) (a : Addr)
    → AllValid nets
    → rule_destination syntax r.rule.selector ≡ some p
    → ReadsBack syntax (around_tunnels (p ∷ []) nets)
    → any (selects syntax a) (pieces syntax nets r) ≡ (selects syntax a r && not (covers nets a))
pieces-selects syntax nets r p a v d h =
    ap (any (selects syntax a)) (pieces-cut syntax nets r p d)
    ∙ cut_rule-selects syntax a r p (around_tunnels (p ∷ []) nets) d h
    ∙ covers-around_tunnels (p ∷ []) nets a v
    ∙ rw (selects-destination syntax a r p d) (ground arith)
