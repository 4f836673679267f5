-- ===== src/Safety/Protocol/Replayed.antt =====
-- internal/safety/apply.go, `rollBack`: what a guard's rollback leaves.
use mathlib.Core.List.{append-nil, append_assoc, map-append}
use riftroute.Base.{
  if◌then◌else◌, Bool, true, false, not, List, [], ◌∷◌, ◌++◌, map, Option, none, some, All,
  All-select, ◌≡◌, refl, sym, ap, ◌∙◌, inl, inr, Option-cases, arith,
}
use riftroute.Domain.{
  ManagedRoute, ManagedRule, OpKind, add_route, del_route, add_rule, del_rule, other, PlanOp,
}
use riftroute.Routing.Plan.{invert, invert_op}
use riftroute.Safety.Executor.{OpError, inverse_op, do_op, run_ops}
use riftroute.Safety.Protocol.{PendingTx, Env}
use riftroute.Safety.Protocol.Replay.{
  Replay, adds_link, without_tunnel_links, record_ownership, record_all, replay, rev, left_plan,
  roll_back,
}
use riftroute.Store.{Db}

-- The operations are of the kinds that the constants name.
abbrev pub is_known : OpKind → Bool
is_known (other k) = false
is_known add_route = true
is_known del_route = true
is_known add_rule = true
is_known del_rule = true

abbrev pub AllKnown : List PlanOp → Type 0
AllKnown = All (λ op. is_known op.kind ≡ true)

module _ {K P : Type 0} (env : Env K) where
  replay_kernel :
      (own : Bool) (ops : List PlanOp) (k : K) (db : Db P)
      → (replay env own ops k db).kernel ≡ (run_ops env.prov ops k).0
  unfolding replay run_ops
  replay_kernel own [] k db = refl
  replay_kernel own (op ∷ ops) k db = elim (Option-cases (do_op env.prov op k).1) [
    | inl e ↦ rw (replay, e) (replay_kernel own ops (do_op env.prov op k).0 _)
    | inr (x, e) ↦ rw (replay, e) (replay_kernel own ops (do_op env.prov op k).0 _)
  ]

  replay_error :
      (own : Bool) (ops : List PlanOp) (k : K) (db : Db P)
      → (replay env own ops k db).error ≡ (run_ops env.prov ops k).1
  unfolding replay run_ops
  replay_error own [] k db = refl
  replay_error own (op ∷ ops) k db = elim (Option-cases (do_op env.prov op k).1) [
    | inl e ↦ rw (replay, run_ops, e) (replay_error own ops (do_op env.prov op k).0 _)
    | inr (x, e) ↦ rw (replay, run_ops, e) refl
  ]

  replay_gone :
      (own : Bool) (op : PlanOp) (ops : List PlanOp) (k : K) (db : Db P)
      → (do_op env.prov op k).1 ≡ none
      → replay env own (op ∷ ops) k db
        ≡ replay env own ops
            (do_op env.prov op k).0
            (if own then record_ownership env op db else db)
  unfolding replay
  replay_gone own op ops k db e = rw (replay, e) refl

  replay_stuck :
      (own : Bool) (op : PlanOp) (ops : List PlanOp) (k : K) (db : Db P) (x : OpError)
      → (do_op env.prov op k).1 ≡ some x
      → (replay env own (op ∷ ops) k db).error ≡ some x
  unfolding replay
  replay_stuck own op ops k db x e = rw (replay, e) refl

  -- Without an error nothing is left, and every operation is recorded.
  abbrev AllRecorded : Bool → List PlanOp → Db P → Replay K P → Type 0
  AllRecorded own ops db r = (r.left ≡ []) × (r.db ≡ (if own then record_all env ops db else db))

  replay_left :
      (own : Bool) (ops : List PlanOp) (k : K) (db : Db P)
      → (replay env own ops k db).error ≡ none
      → AllRecorded own ops db (replay env own ops k db)
  unfolding replay record_all
  replay_left true [] k db h = (refl, refl)
  replay_left false [] k db h = (refl, refl)
  replay_left own (op ∷ ops) k db h = elim (Option-cases (do_op env.prov op k).1) [
    | inr (x, e) ↦ ground (arith, replay_stuck own op ops k db x e)
    | inl e ↦
        let g = replay_gone own op ops k db e in
        let last = (do_op env.prov op k).0 in
        let ih =
          replay_left own ops last (if own then record_ownership env op db else db)
            (ap (λ (r : Replay K P). r.error) (sym g) ∙ h) in
        (
          ap (λ (r : Replay K P). r.left) g ∙ ih.0,
          ap (λ (r : Replay K P). r.db) g ∙ ih.1 ∙ both own op ops db,
        )
  ]
    where
      both :
          (own : Bool) (op : PlanOp) (ops : List PlanOp) (db : Db P)
          → (if own
              then record_all env ops (if own then record_ownership env op db else db)
              else (if own then record_ownership env op db else db))
            ≡ (if own then record_all env (op ∷ ops) db else db)
      both true op ops db = refl
      both false op ops db = refl

  -- What failed is among what was replayed.
  replay-AllKnown :
      (own : Bool) (ops : List PlanOp) (k : K) (db : Db P)
      → AllKnown ops
      → AllKnown (replay env own ops k db).left
  unfolding replay
  replay-AllKnown own [] k db a = tt
  replay-AllKnown own (op ∷ ops) k db a = elim (Option-cases (do_op env.prov op k).1) [
    | inl e ↦ rw (replay, e) (replay-AllKnown own ops (do_op env.prov op k).0 _ a.1)
    | inr (x, e) ↦ rw (replay, e) (a.0, replay-AllKnown own ops (do_op env.prov op k).0 _ a.1)
  ]

invert-append : (xs ys : List PlanOp) → invert (xs ++ ys) ≡ invert ys ++ invert xs
unfolding invert
invert-append [] ys = sym (append-nil (invert ys))
invert-append (x ∷ xs) ys =
    ap (λ (l : List PlanOp). l ++ invert_op x) (invert-append xs ys)
    ∙ append_assoc (invert ys) (invert xs) (invert_op x)

invert_op-inverse_op : (op : PlanOp) → is_known op.kind ≡ true → invert_op (inverse_op op) ≡ op ∷ []
unfolding invert_op
invert_op-inverse_op op h = twice op.kind op.route op.rule h
  where
    twice :
        (k : OpKind) (r : Option ManagedRoute) (l : Option ManagedRule)
        → is_known k ≡ true
        → let op : PlanOp = record { kind = k; route = r; rule = l } in
          invert_op (inverse_op op) ≡ op ∷ []
    twice add_route r l h = refl
    twice del_route r l h = refl
    twice add_rule r l h = refl
    twice del_rule r l h = refl
    twice (other k) r l h = cc

-- The plan of what is left is inverted to what is left.
pub invert-left_plan : (left : List PlanOp) → AllKnown left → invert (left_plan left).ops ≡ left
unfolding left_plan invert
invert-left_plan [] a = refl
invert-left_plan (op ∷ left) a =
    ap invert (map-append inverse_op (rev left) (op ∷ []))
    ∙ invert-append (map inverse_op (rev left)) (inverse_op op ∷ [])
    ∙ ap (λ (l : List PlanOp). l ++ invert (left_plan left).ops) (invert_op-inverse_op op a.0)
    ∙ ap (λ (l : List PlanOp). op ∷ l) (invert-left_plan left a.1)

-- What a guard's rollback does to the kernel and the records, with what it leaves.
pub record Replayed {K R P : Type 0} (env : Env K) (pt : PendingTx R) (k : K) (db : Db P)
    : Type 0 where
  pub kernel :
      (roll_back env pt k db).kernel ≡ (run_ops env.prov (without_tunnel_links pt.plan.inverse) k).0
  pub error :
      (roll_back env pt k db).error ≡ (run_ops env.prov (without_tunnel_links pt.plan.inverse) k).1
  pub complete :
      (roll_back env pt k db).error ≡ none
      → ((roll_back env pt k db).left ≡ [])
        × ((roll_back env pt k db).db ≡ (
            if pt.ownership then record_all env (without_tunnel_links pt.plan.inverse) db else db))
  pub left :
      invert (left_plan (roll_back env pt k db).left).ops
      ≡ (left_plan (roll_back env pt k db).left).inverse

-- For a transaction whose inverse has operations of the known kinds only, any kernel and any
-- database: a guard's rollback changes the kernel as `RunOps` of the inverse does, less the re-adds of
-- tunnels' on-link routes, and returns its first error. Without an error nothing is left, and each
-- operation is recorded as owned or not, if the transaction's are. The plan it returns for what
-- failed has, as its inverse, what `invert` makes of its operations.
pub roll_back-Replayed :
    {K R P : Type 0} (env : Env K) (pt : PendingTx R) (k : K) (db : Db P)
    → AllKnown pt.plan.inverse
    → Replayed env pt k db
unfolding roll_back without_tunnel_links left_plan
roll_back-Replayed env pt k db a =
    let ops = without_tunnel_links pt.plan.inverse in
    record {
      kernel = replay_kernel env pt.ownership ops k db;
      error = replay_error env pt.ownership ops k db;
      complete = replay_left env pt.ownership ops k db;
      left = invert-left_plan (replay env pt.ownership ops k db).left (
          replay-AllKnown env pt.ownership ops k db (
            All-select (λ (op : PlanOp). not (adds_link op))
              (λ (op : PlanOp). is_known op.kind ≡ true) pt.plan.inverse a));
    }
