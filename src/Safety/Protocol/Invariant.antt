-- ===== src/Safety/Protocol/Invariant.antt =====
-- What holds of the apply protocol in every state that it reaches: at most one transaction is on
-- probation; its plan is in the journal, it is not resolved, its record is open, and no id is ahead
-- of the counter.
use mathlib.Core.Path.{subst}
use riftroute.Base.{
  ℕ, ◌≤◌, if◌then◌else◌, List, [], ◌∷◌, none, some, All, ◌≡◌, refl, sym, ap, ◌∙◌, ◌⊎◌, inl, inr,
  Bool-cases, Option-cases,
}
use riftroute.Domain.{Plan}
use riftroute.Safety.Protocol.{
  Decision, commit, rollback, rollback_watchdog, rollback_unconfirmed, rollback_shutdown, committed,
  rolled_back, rec_open, RecState, TxResult, PendingTx, Resolved, Protocol, Env,
}
use riftroute.Safety.Protocol.Settle.{
  find_tx, find_resolved, finish_tx, resolve, resolve_commit, resolve_rollback, kept, taken_back,
  decide, await_found, await, settle, settle_all,
}
use riftroute.Store.{TxId, same_id, Entry, wal_format}
use riftroute.Store.Rows.{find_entry, same_id_refl}

abbrev pub entry_of : TxId → Plan → Entry
entry_of id plan = record { id = id; format = some wal_format; doc = some plan }

-- The one transaction on probation.
pub record OnProbation {K R P : Type 0} (p : Protocol K R P) (pt : PendingTx R) : Type 0 where
  pub only : p.pending ≡ pt ∷ []
  pub unresolved : find_resolved pt.id p.resolved ≡ none
  pub used : pt.id.seq ≤ p.idseq
  pub open_record : pt.rec ≡ rec_open
  pub journaled : find_entry pt.id p.db.journal ≡ some (entry_of pt.id pt.plan)

pub record IsValid {K R P : Type 0} (p : Protocol K R P) : Type 0 where
  pub past : All (λ (r : Resolved). r.id.seq ≤ p.idseq) p.resolved
  pub single : (p.pending ≡ []) ⊎ ((pt : PendingTx R) × OnProbation p pt)

module _ {R : Type 0} where
  -- The transaction after a decision is sent.
  abbrev pub sent : TxId → Decision → PendingTx R → PendingTx R
  sent id d pt =
      if same_id pt.id id
      then elim pt.decided [ none ↦ record pt { decided = some d } | some e ↦ pt ]
      else pt

  sent_same :
      (id : TxId) (d : Decision) (pt : PendingTx R)
      → ((sent id d pt).id ≡ pt.id)
        × ((sent id d pt).plan ≡ pt.plan)
        × ((sent id d pt).rec ≡ pt.rec)
  sent_same id d pt = elim (Bool-cases (same_id pt.id id)) [
    | inr n ↦ rw n (refl, refl, refl)
    | inl y ↦ rw y (elim (Option-cases pt.decided) [
      | inl e ↦ rw e (refl, refl, refl)
      | inr (x, e) ↦ rw e (refl, refl, refl)
    ])
  ]

module _ {K R P : Type 0} where
  -- Sending a decision.
  decide_empty :
      (id : TxId) (d : Decision) (p : Protocol K R P)
      → p.pending ≡ []
      → (decide id d p).pending ≡ []
  unfolding decide
  decide_empty id d p e = rw e refl

  pub decide-OnProbation :
      (id : TxId) (d : Decision) (p : Protocol K R P) (pt : PendingTx R)
      → OnProbation p pt
      → OnProbation (decide id d p) (sent id d pt)
  unfolding decide
  decide-OnProbation id d p pt o =
      let (i, pl, r) = sent_same id d pt in
      record {
        only = rw o.only refl;
        unresolved = rw i o.unresolved;
        used = rw i o.used;
        open_record = r ∙ o.open_record;
        journaled = rw (i, pl) o.journaled;
      }

  -- Finishing the one transaction leaves none.
  pub record Finished (p q : Protocol K R P) (id : TxId) (result : TxResult) : Type 0 where
    pub none_left : q.pending ≡ []
    pub rec : RecState
    pub resolved : q.resolved ≡ record { id = id; result = result; rec = rec } ∷ p.resolved
    pub idseq : q.idseq ≡ p.idseq

  finish_tx_only :
      (pt : PendingTx R) (result : TxResult) (rec : RecState) (p : Protocol K R P)
      → p.pending ≡ pt ∷ []
      → find_resolved pt.id p.resolved ≡ none
      → Finished p (finish_tx pt.id result rec p) pt.id result
  unfolding finish_tx
  finish_tx_only pt result rec p e n =
      rw (finish_tx, n)
        (record {
          none_left = rw (e, same_id_refl pt.id) refl;
          rec = rec;
          resolved = refl;
          idseq = refl;
        })

  finish_same :
      (id : TxId) (result : TxResult) (rec : RecState) (p q : Protocol K R P)
      → p.pending ≡ q.pending
      → p.resolved ≡ q.resolved
      → p.idseq ≡ q.idseq
      → Finished q (finish_tx id result rec q) id result
      → Finished p (finish_tx id result rec q) id result
  finish_same id result rec p q a b c f = record {
    none_left = f.none_left;
    rec = f.rec;
    resolved = rw b f.resolved;
    idseq = f.idseq ∙ sym c;
  }

-- What a decision makes of a transaction.
abbrev pub outcome : Decision → TxResult
outcome commit = committed
outcome rollback = rolled_back
outcome rollback_watchdog = rolled_back
outcome rollback_unconfirmed = rolled_back
outcome rollback_shutdown = rolled_back

module _ {K R P : Type 0} (env : Env K) where
  rollback-Finished :
      (d : Decision) (pt : PendingTx R) (p : Protocol K R P)
      → p.pending ≡ pt ∷ []
      → find_resolved pt.id p.resolved ≡ none
      → Finished p (resolve_rollback env d pt p) pt.id rolled_back
  unfolding resolve_rollback taken_back
  rollback-Finished d pt p e n =
      finish_same pt.id rolled_back _ p _ refl refl refl (finish_tx_only pt rolled_back _ _ e n)

  pub resolve-Finished :
      (d : Decision) (pt : PendingTx R) (p : Protocol K R P)
      → p.pending ≡ pt ∷ []
      → find_resolved pt.id p.resolved ≡ none
      → Finished p (resolve env d pt p) pt.id (outcome d)
  unfolding resolve resolve_commit kept
  resolve-Finished commit pt p e n =
      finish_same pt.id committed _ p _ refl refl refl (finish_tx_only pt committed _ _ e n)
  resolve-Finished rollback pt p e n = rollback-Finished rollback pt p e n
  resolve-Finished rollback_watchdog pt p e n = rollback-Finished rollback_watchdog pt p e n
  resolve-Finished rollback_unconfirmed pt p e n = rollback-Finished rollback_unconfirmed pt p e n
  resolve-Finished rollback_shutdown pt p e n = rollback-Finished rollback_shutdown pt p e n

  Finished-IsValid :
      (p q : Protocol K R P) (pt : PendingTx R) (result : TxResult)
      → IsValid p
      → pt.id.seq ≤ p.idseq
      → Finished p q pt.id result
      → IsValid q
  Finished-IsValid p q pt result v u f = record {
    past =
        subst (λ (n : ℕ). All (λ (r : Resolved). r.id.seq ≤ n) q.resolved) (sym f.idseq)
          (rw f.resolved (u, v.past));
    single = inl f.none_left;
  }

  pub resolve-IsValid :
      (d : Decision) (pt : PendingTx R) (p : Protocol K R P)
      → IsValid p
      → OnProbation p pt
      → IsValid (resolve env d pt p)
  resolve-IsValid d pt p v o =
      Finished-IsValid p _ pt (outcome d) v o.used (resolve-Finished d pt p o.only o.unresolved)

  pub decide-IsValid :
      (id : TxId) (d : Decision) (p : Protocol K R P) → IsValid p → IsValid (decide id d p)
  unfolding decide
  decide-IsValid id d p v = record {
    past = v.past;
    single = elim v.single [
      | inl e ↦ inl (decide_empty id d p e)
      | inr (pt, o) ↦ inr (sent id d pt, decide-OnProbation id d p pt o)
    ];
  }

  -- Waiting for a transaction that is not there, or not decided, changes nothing.
  pub await_empty : (id : TxId) (p : Protocol K R P) → p.pending ≡ [] → await env id p ≡ p
  unfolding await
  await_empty id p e = rw e refl

  pub await_only :
      (id : TxId) (p : Protocol K R P) (pt : PendingTx R)
      → p.pending ≡ pt ∷ []
      → await env id p ≡ (
          if same_id pt.id id
          then elim pt.decided [ none ↦ p | some d ↦ resolve env d pt p ]
          else p)
  unfolding await await_found
  await_only id p pt e =
      ap (λ (l : List (PendingTx R)). await_found env (find_tx id l) p) e
      ∙ elim (Bool-cases (same_id pt.id id)) [ inl y ↦ rw (y) refl | inr n ↦ rw n refl ]

  pub await-IsValid : (id : TxId) (p : Protocol K R P) → IsValid p → IsValid (await env id p)
  await-IsValid id p v = elim v.single [
    | inl e ↦ subst IsValid (sym (await_empty id p e)) v
    | inr (pt, o) ↦ subst IsValid (sym (await_only id p pt o.only)) (chosen pt o)
  ]
    where
      chosen :
          (pt : PendingTx R)
          → OnProbation p pt
          → IsValid (
              if same_id pt.id id
              then elim pt.decided [ none ↦ p | some d ↦ resolve env d pt p ]
              else p)
      chosen pt o = elim (Bool-cases (same_id pt.id id)) [
        | inr n ↦ rw n v
        | inl y ↦ rw y (elim (Option-cases pt.decided) [
          | inl e ↦ rw e v
          | inr (d, e) ↦ rw e (resolve-IsValid d pt p v o)
        ])
      ]

  pub settle-IsValid :
      (d : Decision) (id : TxId) (p : Protocol K R P) → IsValid p → IsValid (settle env d id p)
  unfolding settle
  settle-IsValid d id p v = await-IsValid id (decide id d p) (decide-IsValid id d p v)

  pub settle_all-IsValid :
      (ds : List (TxId × Decision)) (p : Protocol K R P) → IsValid p → IsValid (settle_all env ds p)
  unfolding settle_all
  settle_all-IsValid [] p v = v
  settle_all-IsValid ((id, d) ∷ ds) p v =
      settle_all-IsValid ds (settle env d id p) (settle-IsValid d id p v)
