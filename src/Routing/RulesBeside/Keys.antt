-- ===== src/Routing/RulesBeside/Keys.antt =====
-- Which rules `RulesBeside` gives: one per key of the pieces.
use riftroute.Base.{
  String, str_eq, str_eq_iff, Bool, true, false, ◌||◌, List, [], ◌∷◌, ◌++◌, map, any, ◌≡◌, refl,
  sym, ap, ◌∙◌, inl, inr, arith, Bool-cases,
}
use riftroute.Netip.{Prefix}
use riftroute.Netip.Syntax.{Syntax}
use riftroute.Domain.{ManagedRule}
use riftroute.Routing.Keys.{rule_key}
use riftroute.Routing.Plan.{has_key}
use riftroute.Routing.RulesBeside.{pieces, Rules, add_rules, rules_from, rules_beside}

-- Whether a rule of the key is among rules.
abbrev pub has_rule_key : String → List ManagedRule → Bool
has_rule_key k rs = has_key k (map (λ (r : ManagedRule). rule_key r.rule) rs)

-- The keys seen are those of the rules so far.
abbrev pub RulesSeen : Rules → Type 0
RulesSeen s = (k : String) → has_key k s.seen ≡ has_rule_key k s.out

-- No key stands twice.
abbrev pub DistinctRules : List ManagedRule → Type 0
DistinctRules [] = Unit
DistinctRules (r ∷ rs) = (has_rule_key (rule_key r.rule) rs ≡ false) × DistinctRules rs

has_rule_key-append :
    (k : String) (rs : List ManagedRule) (r : ManagedRule)
    → has_rule_key k (rs ++ r ∷ []) ≡ (str_eq k (rule_key r.rule) || has_rule_key k rs)
has_rule_key-append k [] r = refl
has_rule_key-append k (x ∷ rs) r = ground (arith, has_rule_key-append k rs r)

str_eq_flip : (s t : String) → str_eq s t ≡ false → str_eq t s ≡ false
str_eq_flip s t h = elim (Bool-cases (str_eq t s)) [
  | inr n ↦ n
  | inl y ↦ ground (arith, h, (str_eq_iff s t).1 (sym ((str_eq_iff t s).0 y)))
]

DistinctRules-append :
    (rs : List ManagedRule) (r : ManagedRule)
    → DistinctRules rs
    → has_rule_key (rule_key r.rule) rs ≡ false
    → DistinctRules (rs ++ r ∷ [])
DistinctRules-append [] r d h = (refl, tt)
DistinctRules-append (x ∷ rs) r d h = (
  has_rule_key-append (rule_key x.rule) rs r
      ∙ ground (arith, d.0, str_eq_flip (rule_key r.rule) (rule_key x.rule)),
  DistinctRules-append rs r d.1 (ground arith),
)

-- What adding rules makes of a state.
pub record Added (s : Rules) (rs : List ManagedRule) (t : Rules) : Type 0 where
  pub seen : RulesSeen t
  pub distinct : DistinctRules t.out
  pub keys : (k : String) → has_rule_key k t.out ≡ (has_rule_key k s.out || has_rule_key k rs)

pub add_rules-Added :
    (s : Rules) (rs : List ManagedRule)
    → RulesSeen s
    → DistinctRules s.out
    → Added s rs (add_rules s rs)
unfolding add_rules
add_rules-Added s [] h d = record { seen = h; distinct = d; keys = λ k. ground arith }
add_rules-Added s (r ∷ rs) h d = elim (Bool-cases (has_key (rule_key r.rule) s.seen)) [
  | inl y ↦
      let a = add_rules-Added s rs h d in
      let there = sym (h (rule_key r.rule)) ∙ y in
      rw y (record { seen = a.seen; distinct = a.distinct; keys = λ k. a.keys k ∙ known k there })
  | inr n ↦
      let absent = sym (h (rule_key r.rule)) ∙ n in
      let s' : Rules = record { seen = rule_key r.rule ∷ s.seen; out = s.out ++ r ∷ [] } in
      let a =
        add_rules-Added s' rs
          (λ k.
            ap (λ b. str_eq k (rule_key r.rule) || b) (h k) ∙ sym (has_rule_key-append k s.out r))
          (DistinctRules-append s.out r d absent) in
      rw n (record {
        seen = a.seen;
        distinct = a.distinct;
        keys = λ k.
            a.keys k
            ∙ ap (λ b. b || has_rule_key k rs) (has_rule_key-append k s.out r)
            ∙ or_turn (str_eq k (rule_key r.rule)) (has_rule_key k s.out) (has_rule_key k rs);
      })
]
  where
    or_turn : (a b c : Bool) → ((a || b) || c) ≡ (b || (a || c))
    or_turn a b c = ground arith

    known :
        (k : String)
        → has_rule_key (rule_key r.rule) s.out ≡ true
        → (has_rule_key k s.out || has_rule_key k rs)
          ≡ (has_rule_key k s.out || has_rule_key k (r ∷ rs))
    known k there = elim (Bool-cases (str_eq k (rule_key r.rule))) [
      | inr n ↦ rw n refl
      | inl y ↦ ground (
        arith,
        there,
        ap (λ (j : String). has_rule_key j s.out) ((str_eq_iff k (rule_key r.rule)).0 y),
      )
    ]

rules_from-keys :
    (syntax : Syntax) (nets : List Prefix) (s : Rules) (rs : List ManagedRule) (k : String)
    → RulesSeen s
    → DistinctRules s.out
    → (has_rule_key k (rules_from syntax nets s rs).out
        ≡ (has_rule_key k s.out || any (λ r. has_rule_key k (pieces syntax nets r)) rs))
      × DistinctRules (rules_from syntax nets s rs).out
unfolding rules_from
rules_from-keys syntax nets s [] k h d = (ground arith, d)
rules_from-keys syntax nets s (r ∷ rs) k h d =
    let a = add_rules-Added s (pieces syntax nets r) h d in
    let (keys, distinct) =
      rules_from-keys syntax nets (add_rules s (pieces syntax nets r)) rs k a.seen a.distinct in
    (keys ∙ ground (arith, a.keys k), distinct)

-- For any networks, at least one, and any rules: a key is among the rules that `RulesBeside` gives
-- exactly if it is among the pieces of one of the rules, and no key is there twice.
pub rules_beside-keys :
    (syntax : Syntax) (n : Prefix) (nets : List Prefix) (rules : List ManagedRule) (k : String)
    → (has_rule_key k (rules_beside syntax (n ∷ nets) rules)
        ≡ any (λ r. has_rule_key k (pieces syntax (n ∷ nets) r)) rules)
      × DistinctRules (rules_beside syntax (n ∷ nets) rules)
unfolding rules_beside
rules_beside-keys syntax n nets rules k =
    rules_from-keys syntax (n ∷ nets) (record { seen = []; out = [] }) rules k (λ k. refl) tt
