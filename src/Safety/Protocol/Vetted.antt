-- ===== src/Safety/Protocol/Vetted.antt =====
-- internal/safety/apply.go, `checkPlanGuardrails`, against a description of it: the last change of
-- each family's main-table default.
use riftroute.Base.{
  if◌then◌else◌, Bool, true, false, bool_eq, List, [], ◌∷◌, ◌++◌, Option, none, some, ◌≡◌, refl, ap,
  ◌∙◌, inl, inr, Option-cases,
}
use riftroute.Netip.{Prefix}
use riftroute.Netip.Syntax.{Syntax}
use riftroute.Domain.{
  family_v4, family_v6, OpKind, add_route, del_route, add_rule, del_rule, other, PlanOp, Plan,
}
use riftroute.Safety.Protocol.Vet.{
  keep_default_route, Removed, mark, default_of, removes, removed_by, check_plan_guardrails,
}

-- Whether an operation removes a default of the family (`true` for IPv4), or adds one, if it does
-- either.
abbrev change_of : OpKind → Option Bool
change_of add_route = some false
change_of del_route = some true
change_of add_rule = none
change_of del_rule = none
change_of (other k) = none

abbrev default_change : Syntax → Bool → PlanOp → Option Bool
default_change syntax is4 op = elim (default_of syntax op) [
  | none ↦ none
  | some p ↦ if bool_eq p.is4 is4 then change_of op.kind else none
]

-- The last change, if there is one.
abbrev or_last : Option Bool → Bool → Bool
or_last none b = b
or_last (some a) b = a

abbrev pub ends_removed : Syntax → Bool → Bool → List PlanOp → Bool
ends_removed syntax is4 now [] = now
ends_removed syntax is4 now (op ∷ ops) =
    ends_removed syntax is4 (or_last (default_change syntax is4 op) now) ops

-- The fields of `removed` are the families' last changes.
removes_fields :
    (syntax : Syntax) (op : PlanOp) (r : Removed)
    → ((removes syntax op r).v4 ≡ or_last (default_change syntax true op) r.v4)
      × ((removes syntax op r).v6 ≡ or_last (default_change syntax false op) r.v6)
unfolding removes
removes_fields syntax op r = elim (Option-cases (default_of syntax op)) [
  | inl n ↦ rw (removes, default_change, n) (refl, refl)
  | inr (p, e) ↦ rw (removes, default_change, e) (by_kind p p.is4 refl op.kind)
]
  where
    by_kind :
        (p : Prefix) (b : Bool)
        → p.is4 ≡ b
        → (k : OpKind)
        → let after : Removed = elim k [
          | del_route ↦ mark p true r
          | add_route ↦ mark p false r
          | add_rule ↦ r
          | del_rule ↦ r
          | other k ↦ r
        ] in
          (after.v4 ≡ or_last (if bool_eq p.is4 true then change_of k else none) r.v4)
          × (after.v6 ≡ or_last (if bool_eq p.is4 false then change_of k else none) r.v6)
    by_kind p true e add_route = rw e (refl, refl)
    by_kind p true e del_route = rw e (refl, refl)
    by_kind p false e add_route = rw e (refl, refl)
    by_kind p false e del_route = rw e (refl, refl)
    by_kind p true e add_rule = rw e (refl, refl)
    by_kind p true e del_rule = rw e (refl, refl)
    by_kind p false e add_rule = rw e (refl, refl)
    by_kind p false e del_rule = rw e (refl, refl)
    by_kind p true e (other k) = rw e (refl, refl)
    by_kind p false e (other k) = rw e (refl, refl)

removed_by_fields :
    (syntax : Syntax) (ops : List PlanOp) (r : Removed)
    → ((removed_by syntax ops r).v4 ≡ ends_removed syntax true r.v4 ops)
      × ((removed_by syntax ops r).v6 ≡ ends_removed syntax false r.v6 ops)
unfolding removed_by
removed_by_fields syntax [] r = (refl, refl)
removed_by_fields syntax (op ∷ ops) r =
    let (a, b) = removes_fields syntax op r in
    let (x, y) = removed_by_fields syntax ops (removes syntax op r) in
    (
      x ∙ ap (λ (now : Bool). ends_removed syntax true now ops) a,
      y ∙ ap (λ (now : Bool). ends_removed syntax false now ops) b,
    )

-- For any hand-built plan: the guardrails refuse it for a family exactly if the last change that it
-- makes to the family's main-table default, by whatever spelling of a /0, takes the default away.
pub check_plan_guardrails_lem :
    (syntax : Syntax) (plan : Plan)
    → check_plan_guardrails syntax plan
      ≡ (if ends_removed syntax true false plan.ops then keep_default_route family_v4 ∷ [] else [])
        ++ (if ends_removed syntax false false plan.ops
            then keep_default_route family_v6 ∷ []
            else [])
unfolding check_plan_guardrails
check_plan_guardrails_lem syntax plan =
    let (a, b) = removed_by_fields syntax plan.ops (record { v4 = false; v6 = false }) in
    rw (a, b) refl
