-- ===== src/Routing/RulesBeside.antt =====
-- internal/routing/tunnels.go, `TunnelPlan.RulesBeside` and `ruleDestination`: include rules cut around
-- the tunnels' networks. `entryToPrefix` is of internal/routing/engine.go.
pub mod Pieces
pub mod Keys
use Prim.Native.Char.{code}
use Prim.Native.String as Str
use riftroute.Base.{
  String, ◌<>◌, ◌==◌, if◌then◌else◌, Bool, true, false, ◌||◌, List, [], ◌∷◌, ◌++◌, map, Option,
  none, some,
}
use riftroute.Netip.{Addr, Prefix, width, prefix_from, prefix_eq, masked}
use riftroute.Netip.Syntax.{Syntax}
use riftroute.Domain.{PolicyRule, ManagedRule}
use riftroute.Routing.Keys.{rule_key}
use riftroute.Routing.Plan.{has_key}
use riftroute.Routing.Nets.{around_tunnels}

-- strings.CutPrefix, and whether a text holds a space.
abbrev pub cut_prefix : String → String → Option String
cut_prefix Str.[] s = some s
cut_prefix (Str.◌∷◌ c p) Str.[] = none
cut_prefix (Str.◌∷◌ c p) (Str.◌∷◌ d s) = if code c == code d then cut_prefix p s else none

abbrev pub has_space : String → Bool
has_space Str.[] = false
has_space (Str.◌∷◌ c s) = code c == b' ' || has_space s

-- `entryToPrefix`: a prefix, or an address as its own.
unfoldable pub entry_to_prefix : Syntax → String → Option Prefix
entry_to_prefix syntax s = elim (syntax.parse_prefix s) [
  | some p ↦ some p
  | none ↦ elim (syntax.parse_addr s) [ none ↦ none | some a ↦ some (prefix_from a (width a.is4)) ]
]

-- `ruleDestination`, of a rule's selector.
unfoldable pub rule_destination : Syntax → String → Option Prefix
unfolding entry_to_prefix
rule_destination syntax selector = elim (cut_prefix "to " selector) [
  | none ↦ none
  | some d ↦ if has_space d then none else entry_to_prefix syntax d
]

-- The rule that selects one part.
abbrev pub cut_to : Syntax → ManagedRule → Prefix → ManagedRule
cut_to syntax r p = record r { rule = record r.rule { selector = "to " <> syntax.print_prefix p } }

-- A rule with a destination, by the parts left of it: one that is left whole keeps its spelling.
unfoldable pub cut_rule : Syntax → ManagedRule → Prefix → List Prefix → List ManagedRule
cut_rule syntax r p [] = []
cut_rule syntax r p (q ∷ []) = if prefix_eq q (masked p) then r ∷ [] else cut_to syntax r q ∷ []
cut_rule syntax r p (q ∷ q' ∷ qs) = map (cut_to syntax r) (q ∷ q' ∷ qs)

-- What one rule becomes: the body of the loop.
unfoldable pub pieces : Syntax → List Prefix → ManagedRule → List ManagedRule
unfolding rule_destination cut_rule
pieces syntax nets r = elim (rule_destination syntax r.rule.selector) [
  | none ↦ r ∷ []
  | some p ↦ cut_rule syntax r p (around_tunnels (p ∷ []) nets)
]

-- `add`: the keys seen, and the rules so far.
pub record Rules : Type 0 where
  pub seen : List String
  pub out : List ManagedRule

unfoldable pub add_rules : Rules → List ManagedRule → Rules
add_rules s [] = s
add_rules s (r ∷ rs) =
    let k = rule_key r.rule in
    let added = add_rules (record { seen = k ∷ s.seen; out = s.out ++ r ∷ [] }) rs in
    let skipped = add_rules s rs in if has_key k s.seen then skipped else added

unfoldable pub rules_from : Syntax → List Prefix → Rules → List ManagedRule → Rules
unfolding pieces add_rules
rules_from syntax nets s [] = s
rules_from syntax nets s (r ∷ rs) = rules_from syntax nets (add_rules s (pieces syntax nets r)) rs

-- `RulesBeside`.
unfoldable pub rules_beside : Syntax → List Prefix → List ManagedRule → List ManagedRule
unfolding rules_from
rules_beside syntax [] rules = rules
rules_beside syntax (n ∷ nets) rules =
    (rules_from syntax (n ∷ nets) (record { seen = []; out = [] }) rules).out
