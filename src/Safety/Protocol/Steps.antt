-- ===== src/Safety/Protocol/Steps.antt =====
-- Each operation of the apply protocol keeps its invariant, and the states that it reaches.
use mathlib.Core.Path.{subst}
use riftroute.Base.{
  ℕ, suc, ◌≤◌, String, if◌then◌else◌, Bool, true, false, not, ◌&&◌, List, [], ◌∷◌, map, any, Option,
  none, some, All, ◌≡◌, refl, sym, ap, ◌∙◌, inl, inr, arith, Bool-cases, Option-cases,
}
use riftroute.Domain.{PlanOp, Plan}
use riftroute.Safety.Executor.{ApplyError}
use riftroute.Safety.Executor
use riftroute.Safety.Protocol.{PendingTx, Resolved, Protocol, Env, Options}
use riftroute.Safety.Protocol.Replay.{record_ownership, record_all, apply_ownership, audit}
use riftroute.Safety.Protocol.Settle.{find_resolved}
use riftroute.Safety.Protocol.Execute.{
  set_record, replace_records, record_unchanged, open_records, rec_of, is_empty,
}
use riftroute.Safety.Protocol.Invariant.{IsValid}
use riftroute.Store.{TxId, same_id, Db, add_owned, del_owned, append_audit}
use riftroute.Store.Rows.{find_entry, same_id→seq}

module _ {K R P : Type 0} where
  -- The invariant reads these fields only.
  pub IsValid-same :
      (p q : Protocol K R P)
      → q.pending ≡ p.pending
      → q.resolved ≡ p.resolved
      → q.idseq ≡ p.idseq
      → q.db.journal ≡ p.db.journal
      → IsValid p
      → IsValid q
  IsValid-same p q a b c j v = record {
    past = subst (λ (n : ℕ). All (λ (r : Resolved). r.id.seq ≤ n) q.resolved) (sym c) (rw b v.past);
    single = elim v.single [
      | inl e ↦ inl (a ∙ e)
      | inr (pt, o) ↦ inr (
        pt,
        record {
          only = a ∙ o.only;
          unresolved = ap (find_resolved pt.id) b ∙ o.unresolved;
          used = subst (λ (n : ℕ). pt.id.seq ≤ n) (sym c) o.used;
          open_record = o.open_record;
          journaled = ap (find_entry pt.id) j ∙ o.journaled;
        },
      )
    ];
  }

pub past_fresh :
    (n : ℕ) (id : TxId) (rs : List Resolved)
    → All (λ (r : Resolved). r.id.seq ≤ n) rs
    → suc n ≤ id.seq
    → find_resolved id rs ≡ none
past_fresh n id [] a h = refl
past_fresh n id (r ∷ rs) a h = elim (Bool-cases (same_id r.id id)) [
  | inl y ↦ ground (arith, same_id→seq r.id id y, a.0)
  | inr k ↦ rw k (past_fresh n id rs a.1 h)
]

pub past_weaken :
    (n : ℕ) (rs : List Resolved)
    → All (λ (r : Resolved). r.id.seq ≤ n) rs
    → All (λ (r : Resolved). r.id.seq ≤ suc n) rs
past_weaken n [] a = tt
past_weaken n (r ∷ rs) a = (omega (arith, a.0), past_weaken n rs a.1)

-- What is written beside the journal leaves it alone.
module _ {K P : Type 0} (env : Env K) where
  record_ownership_journal :
      (op : PlanOp) (db : Db P) → (record_ownership env op db).journal ≡ db.journal
  unfolding record_ownership add_owned del_owned
  record_ownership_journal op db = ground arith

  record_all_journal :
      (ops : List PlanOp) (db : Db P) → (record_all env ops db).journal ≡ db.journal
  unfolding record_all
  record_all_journal [] db = refl
  record_all_journal (op ∷ ops) db =
      record_all_journal ops (record_ownership env op db) ∙ record_ownership_journal op db

  pub apply_ownership_journal :
      (plan : Plan) (undo : Bool) (db : Db P)
      → (apply_ownership env plan undo db).journal ≡ db.journal
  unfolding apply_ownership
  apply_ownership_journal plan undo db =
      record_all_journal (if undo then map Executor.inverse_op plan.ops else plan.ops) db

  pub audit_journal :
      (actor action result reason : String) (plan : Option Plan) (undone : Bool)
      (codes : List String) (db : Db P)
      → (audit env actor action result reason plan undone codes db).journal ≡ db.journal
  unfolding audit append_audit
  audit_journal actor action result reason plan undone codes db = ground arith

module _ {R : Type 0} where
  recorded_same :
      (f : R → R) (ids : List TxId) (pt : PendingTx R)
      → let new = if any (same_id pt.id) ids then record pt { on_commit = some f } else pt in
        (new.id ≡ pt.id) × (new.plan ≡ pt.plan) × (new.rec ≡ pt.rec)
  recorded_same f ids pt = elim (Bool-cases (any (same_id pt.id) ids)) [
    | inl y ↦ rw y (refl, refl, refl)
    | inr n ↦ rw n (refl, refl, refl)
  ]

module _ {K R P : Type 0} where
  set_record-IsValid :
      (f : R → R) (ids : List TxId) (p : Protocol K R P)
      → IsValid p
      → IsValid (record p { pending = set_record f ids p.pending })
  set_record-IsValid f ids p v = record {
    past = v.past;
    single = elim v.single [
      | inl e ↦ inl (ap (set_record f ids) e)
      | inr (pt, o) ↦
          let (i, pl, r) = recorded_same f ids pt in
          inr (
            if any (same_id pt.id) ids then record pt { on_commit = some f } else pt,
            record {
              only = ap (set_record f ids) o.only;
              unresolved = rw i o.unresolved;
              used = rw i o.used;
              open_record = r ∙ o.open_record;
              journaled = rw (i, pl) o.journaled;
            },
          )
    ];
  }

  replace_records-IsValid :
      (ids : Option (List TxId)) (f : R → R) (p : Protocol K R P)
      → IsValid p
      → IsValid (replace_records ids f p)
  unfolding replace_records
  replace_records-IsValid none f p v = v
  replace_records-IsValid (some []) f p v = IsValid-same p _ refl refl refl refl v
  replace_records-IsValid (some (id ∷ ids)) f p v = set_record-IsValid f (id ∷ ids) p v

  pub record_unchanged-IsValid :
      (o : Options R P) (beside : List TxId) (p : Protocol K R P)
      → IsValid p
      → IsValid (record_unchanged o beside p)
  unfolding record_unchanged
  record_unchanged-IsValid o beside p v = elim (Option-cases o.on_commit) [
    | inl e ↦ rw e v
    | inr (f, e) ↦ rw e (if_IsValid (is_empty beside) o.built_on_record f)
  ]
    where
      if_IsValid :
          (a b : Bool) (f : R → R)
          → IsValid (if not a && b then p else replace_records (open_records (rec_of p) beside) f p)
      if_IsValid true b f = replace_records-IsValid _ f p v
      if_IsValid false true f = v
      if_IsValid false false f = replace_records-IsValid _ f p v
