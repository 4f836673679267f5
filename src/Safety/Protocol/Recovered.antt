-- ===== src/Safety/Protocol/Recovered.antt =====
-- internal/safety/apply.go, `RecoverPending`: a crash while a change is on probation.
use riftroute.Base.{
  ℕ, String, if◌then◌else◌, Bool, true, false, not, List, [], ◌∷◌, Option, none, some, select, ◌≡◌,
  ◌≢◌, refl, ap, ◌∙◌, arith,
}
use riftroute.Domain.{PlanOp, Plan}
use riftroute.Routing.Plan.{invert}
use riftroute.Safety.Executor.{ApplyError, apply, run_ops}
use riftroute.Safety.Executor.Atomic.{AllUndo, apply-atomic, run_ops-apply}
use riftroute.Safety.Protocol.{Protocol, Env, Options}
use riftroute.Safety.Protocol.Replay.{without_tunnel_links, apply_ownership, audit}
use riftroute.Safety.Protocol.Execute.{
  next_tx_id, begin_tx, execute_failed, execute_done, executed, execute_plan,
}
use riftroute.Safety.Protocol.Startup.{
  Host, recover_one, recover_all, recover_listed, recover_pending,
}
use riftroute.Safety.Protocol.Invariant.{entry_of}
use riftroute.Safety.Protocol.Steps.{apply_ownership_journal, audit_journal}
use riftroute.Store.{
  TxId, Entry, Db, same_id, upsert_entry, put_pending_tx, clear_pending_tx, list_pending_tx,
  read_entries, unreadable,
}
use riftroute.Store.Rows.{same_id_refl}

-- The statements on the journal do not fail.
pub record JournalWorks {K : Type 0} (env : Env K) : Type 0 where
  pub put : (id : TxId) → env.fail.put_pending id ≡ false
  pub clear : (id : TxId) → env.fail.clear_pending id ≡ false
  pub list : env.fail.list_pending ≡ false

module _ {K P : Type 0} (env : Env K) (w : JournalWorks env) where
  list_eq :
      (db : Db P)
      → list_pending_tx env.fail db ≡ some (read_entries db.journal, unreadable db.journal)
  unfolding list_pending_tx
  list_eq db = rw (w.list) refl

  clear_eq :
      (id : TxId) (db : Db P)
      → (clear_pending_tx env.fail id db).0.journal
        ≡ select (λ (e : Entry). not (same_id e.id id)) db.journal
  unfolding clear_pending_tx
  clear_eq id db = rw (w.clear id) refl

  put_eq :
      (id : TxId) (plan : Plan) (db : Db P)
      → (put_pending_tx env.fail id plan db).0.journal ≡ upsert_entry (entry_of id plan) db.journal
  unfolding put_pending_tx
  put_eq id plan db = rw (w.put id) refl

  recover_none : (h : Host K P) → h.db.journal ≡ [] → (recover_pending env h).0 ≡ h
  unfolding recover_pending recover_listed recover_all read_entries unreadable
  recover_none h e =
      ap (λ (m : Option (List (TxId × Plan) × List TxId)). (recover_listed env m h).0)
        (list_eq h.db ∙ ap (λ (j : List Entry). some (read_entries j, unreadable j)) e)

  recover_single :
      (h : Host K P) (id : TxId) (plan : Plan)
      → h.db.journal ≡ entry_of id plan ∷ []
      → (recover_pending env h).0 ≡ recover_one env (id, plan) h
  unfolding recover_pending recover_listed recover_all read_entries unreadable
  recover_single h id plan e =
      ap (λ (m : Option (List (TxId × Plan) × List TxId)). (recover_listed env m h).0)
        (list_eq h.db ∙ ap (λ (j : List Entry). some (read_entries j, unreadable j)) e)

module _ {K R P : Type 0} (B : Type 0) (env : Env K) (w : JournalWorks env) where
  -- A state that recovery takes back to the kernel k.
  abbrev Restores : K → Protocol K R P → Type 0
  Restores k q = (recover_pending env (record { kernel = q.kernel; db = q.db })).0.kernel ≡ k

  done_Restores :
      (action : String) (id : TxId) (plan : Plan) (own : Bool) (o : Options R P)
      (p : Protocol K R P) (k : K)
      → o.unguarded ≡ false
      → p.db.journal ≡ entry_of id plan ∷ []
      → (run_ops env.prov (without_tunnel_links plan.inverse) p.kernel).0 ≡ k
      → Restores k (execute_done {B = B} env action id plan own o p).0
  unfolding execute_done recover_one
  done_Restores action id plan own o p k u e r =
      let owned : Db P = if own then apply_ownership env plan false p.db else p.db in
      let db : Db P = audit env o.actor action "applied" "" (some plan) false [] owned in
      let j =
        audit_journal env o.actor action "applied" "" (some plan) false [] owned
        ∙ owned_journal own
        ∙ e in
      rw u (
        ap (λ (h : Host K P). h.kernel)
          (recover_single env w (record { kernel = p.kernel; db = db }) id plan j)
        ∙ r)
    where
      owned_journal :
          (c : Bool)
          → (if c then apply_ownership env plan false p.db else p.db).journal ≡ p.db.journal
      owned_journal true = apply_ownership_journal env plan false p.db
      owned_journal false = refl

  failed_Restores :
      (action : String) (id : TxId) (plan : Plan) (o : Options R P) (x : ApplyError)
      (p : Protocol K R P)
      → p.db.journal ≡ entry_of id plan ∷ []
      → Restores p.kernel (execute_failed {B = B} env action id plan o x p).0
  unfolding execute_failed
  failed_Restores action id plan o x p e =
      let cleared = (clear_pending_tx env.fail id p.db).0 in
      let db = audit env o.actor action "failed" "" (some plan) true [] cleared in
      let gone =
        ap (select (λ (e : Entry). not (same_id e.id id))) e
        ∙ ap (λ (b : Bool). if not b then entry_of id plan ∷ [] else []) (same_id_refl id) in
      ap (λ (h : Host K P). h.kernel)
        (recover_none env w (record { kernel = p.kernel; db = db })
          (audit_journal env o.actor action "failed" "" (some plan) true [] cleared
            ∙ clear_eq env w id p.db
            ∙ gone))

  executed-Restores :
      (action : String) (id : TxId) (plan : Plan) (own : Bool) (o : Options R P)
      (p : Protocol K R P) (ran : K × Option ApplyError) (k : K)
      → o.unguarded ≡ false
      → p.db.journal ≡ entry_of id plan ∷ []
      → (ran.1 ≡ none → (run_ops env.prov (without_tunnel_links plan.inverse) ran.0).0 ≡ k)
      → (ran.1 ≢ none → ran.0 ≡ k)
      → Restores k (executed {B = B} env action id plan own o ran.1 (record p { kernel = ran.0 })).0
  unfolding executed
  executed-Restores action id plan own o p (last, none) k u e a b =
      done_Restores action id plan own o (record p { kernel = last }) k u e (a refl)
  executed-Restores action id plan own o p (last, some x) k u e a b =
      failed_Restores action id plan o x (record p { kernel = last }) e ∙ b (λ q. ground (arith, q))

  -- A crash is safe while a change is on probation. For a guarded change that `executePlan` makes with
  -- an empty journal, whose operations, each from the state it is run on, are undone by their inverses
  -- or change nothing if they fail, whose inverse is the one `invert` computes and re-adds no tunnel's
  -- on-link route, and for a journal whose statements do not fail: whether the change went through or
  -- failed, `RecoverPending` on the kernel and the database it left restores the kernel before it.
  pub recover_pending-execute_plan :
      (now : ℕ) (action : String) (plan : Plan) (o : Options R P) (own : Bool) (p : Protocol K R P)
      → o.unguarded ≡ false
      → p.db.journal ≡ []
      → AllUndo env.prov plan.ops p.kernel
      → plan.inverse ≡ invert plan.ops
      → without_tunnel_links plan.inverse ≡ plan.inverse
      → Restores p.kernel (execute_plan {B = B} env now action plan o own p).0
  unfolding execute_plan begin_tx upsert_entry
  recover_pending-execute_plan now action plan o own p u e a i l =
      let id = next_tx_id own p.idseq in
      let ran = apply env.prov plan p.kernel in
      executed-Restores action id plan own o (begin_tx env now id plan o p) ran p.kernel u
        (put_eq env w id plan p.db ∙ ap (upsert_entry (entry_of id plan)) e)
        (λ q.
          ap (λ (ops : List PlanOp). (run_ops env.prov ops ran.0).0) (l ∙ i)
          ∙ ap (λ r. r.0) (run_ops-apply env.prov plan p.kernel a q))
        (λ q. apply-atomic env.prov plan p.kernel a q)
