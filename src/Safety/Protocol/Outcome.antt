-- ===== src/Safety/Protocol/Outcome.antt =====
-- internal/safety/apply.go: what settling the transaction on probation does.
use mathlib.Core.Path.{subst}
use riftroute.Base.{
  if◌then◌else◌, Bool, [], ◌∷◌, Option, none, some, ◌≡◌, refl, sym, ap, ◌∙◌, inl, inr, Bool-cases,
  Option-cases,
}
use riftroute.Safety.Protocol.{Decision, commit, PendingTx, Protocol, Env}
use riftroute.Safety.Protocol.Settle.{resolve, decide, settle, settle_all}
use riftroute.Safety.Protocol.Execute.{supersede_pending}
use riftroute.Safety.Protocol.Invariant.{
  OnProbation, IsValid, Finished, outcome, resolve-Finished, sent, decide-OnProbation, await_only,
  settle_all-IsValid,
}
use riftroute.Store.{TxId, same_id}
use riftroute.Store.Rows.{same_id_refl}

-- The decision that counts: the one received first.
abbrev pub first : {R : Type 0} → Decision → PendingTx R → Decision
first d pt = elim pt.decided [ none ↦ d | some e ↦ e ]

module _ {R : Type 0} where
  sent_decided : (d : Decision) (pt : PendingTx R) → (sent pt.id d pt).decided ≡ some (first d pt)
  sent_decided d pt =
      rw (same_id_refl pt.id)
        (elim (Option-cases pt.decided) [ inl e ↦ rw e refl | inr (x, e) ↦ rw (e, e) refl ])

  pub sent_id : (d : Decision) (pt : PendingTx R) → (sent pt.id d pt).id ≡ pt.id
  sent_id d pt =
      rw (same_id_refl pt.id)
        (elim (Option-cases pt.decided) [ inl e ↦ rw e refl | inr (x, e) ↦ rw e refl ])

module _ {K R P : Type 0} (env : Env K) where
  pub settle_only :
      (d : Decision) (p : Protocol K R P) (pt : PendingTx R)
      → OnProbation p pt
      → settle env d pt.id p ≡ resolve env (first d pt) (sent pt.id d pt) (decide pt.id d p)
  unfolding settle
  settle_only d p pt o =
      let q = decide pt.id d p in
      let o' = decide-OnProbation pt.id d p pt o in
      await_only env pt.id q (sent pt.id d pt) o'.only
      ∙ ap
          (λ (b : Bool).
            if b
            then elim (sent pt.id d pt).decided [
              | none ↦ q
              | some e ↦ resolve env e (sent pt.id d pt) q
            ]
            else q)
          (ap (λ (i : TxId). same_id i pt.id) (sent_id d pt) ∙ same_id_refl pt.id)
      ∙ ap
          (λ (m : Option Decision). elim m [
            | none ↦ q
            | some e ↦ resolve env e (sent pt.id d pt) q
          ])
          (sent_decided d pt)

  pub settle-Finished :
      (d : Decision) (p : Protocol K R P) (pt : PendingTx R)
      → OnProbation p pt
      → Finished
          (decide pt.id d p)
          (settle env d pt.id p)
          (sent pt.id d pt).id
          (outcome (first d pt))
  settle-Finished d p pt o =
      let o' = decide-OnProbation pt.id d p pt o in
      subst
        (λ (q : Protocol K R P).
          Finished (decide pt.id d p) q (sent pt.id d pt).id (outcome (first d pt)))
        (sym (settle_only d p pt o))
        (resolve-Finished env (first d pt) (sent pt.id d pt) (decide pt.id d p) o'.only
          o'.unresolved)

  -- What `supersedePending` returns has nothing on probation.
  settle_all_one :
      (d : Decision) (p : Protocol K R P) (pt : PendingTx R)
      → OnProbation p pt
      → (settle_all env ((pt.id, d) ∷ []) p).pending ≡ []
  unfolding settle_all
  settle_all_one d p pt o = (settle-Finished d p pt o).none_left

  supersede_empty : (p : Protocol K R P) → p.pending ≡ [] → supersede_pending env p ≡ some p
  unfolding supersede_pending settle_all
  supersede_empty p e = rw e refl

  supersede_one :
      (p : Protocol K R P) (pt : PendingTx R)
      → p.pending ≡ pt ∷ []
      → supersede_pending env p
        ≡ (if pt.interactive then none else some (settle_all env ((pt.id, commit) ∷ []) p))
  unfolding supersede_pending
  supersede_one p pt e = elim (Bool-cases pt.interactive) [
    | inl y ↦ rw (e, y) refl
    | inr n ↦ rw (e, n) refl
  ]

  pub record Superseded (p q : Protocol K R P) : Type 0 where
    pub valid : IsValid q
    pub none_left : q.pending ≡ []

  abbrev pub AllSuperseded : Protocol K R P → Option (Protocol K R P) → Type 0
  AllSuperseded p none = Unit
  AllSuperseded p (some q) = Superseded p q

  pub supersede_pending-AllSuperseded :
      (p : Protocol K R P) → IsValid p → AllSuperseded p (supersede_pending env p)
  supersede_pending-AllSuperseded p v = elim v.single [
    | inl e ↦
        subst (AllSuperseded p) (sym (supersede_empty p e)) (record { valid = v; none_left = e })
    | inr (pt, o) ↦
        subst (AllSuperseded p) (sym (supersede_one p pt o.only))
          (elim (Bool-cases pt.interactive) [
            | inl y ↦ rw y tt
            | inr n ↦ rw n (record {
              valid = settle_all-IsValid env _ p v;
              none_left = settle_all_one commit p pt o;
            })
          ])
  ]
