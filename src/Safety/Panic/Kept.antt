-- ===== src/Safety/Panic/Kept.antt =====
-- internal/safety/panic.go: what a panic leaves recorded, and the protocol's invariant after it.
use riftroute.Base.{String, if◌then◌else◌, true, List, [], ◌∷◌, none, ◌≡◌, refl, ◌∙◌, arith}
use riftroute.Domain.{ManagedRoute}
use riftroute.Safety.Panic.{drop_records, forget_owned, flush, swept, recorded, panic_flush}
use riftroute.Safety.Protocol.{Protocol, Env}
use riftroute.Safety.Protocol.Settle.{policy_decisions, settle_for_panic}
use riftroute.Safety.Protocol.Invariant.{IsValid, settle_all-IsValid}
use riftroute.Safety.Protocol.Steps.{IsValid-same, audit_journal}
use riftroute.Store.{Db, clear_owned, del_owned}

module _ {K P : Type 0} (env : Env K) where
  drop_records_journal :
      (keep owned : List ManagedRoute) (db : Db P)
      → (drop_records env keep owned db).journal ≡ db.journal
  unfolding drop_records del_owned
  drop_records_journal keep [] db = refl
  drop_records_journal keep (m ∷ ms) db = drop_records_journal keep ms _ ∙ ground arith

  forget_owned_journal :
      (owned failed : List ManagedRoute) (db : Db P)
      → (forget_owned env owned failed db).0.journal ≡ db.journal
  unfolding forget_owned clear_owned
  forget_owned_journal owned [] db = ground arith
  forget_owned_journal owned (m ∷ ms) db = drop_records_journal (m ∷ ms) owned db

  flush_journal : (k : K) (db : Db P) → (flush env k db).1.journal ≡ db.journal
  unfolding flush
  flush_journal k db = forget_owned_journal (recorded env db) (swept env k (recorded env db)).1 db

module _ {K R P : Type 0} (env : Env K) where
  pub panic_flush-IsValid :
      (actor : String) (flushing : R → R) (p : Protocol K R P)
      → IsValid p
      → IsValid (panic_flush env actor flushing p).0
  unfolding panic_flush settle_for_panic
  panic_flush-IsValid actor flushing p v =
      let q = settle_for_panic env p in
      let out = flush env q.kernel q.db in
      let result : String = if out.3 then "panic-error" else "panicked" in
      IsValid-same q _ refl refl refl
        (audit_journal env actor "panic" result "" none true [] out.1
          ∙ flush_journal env q.kernel q.db)
        (settle_all-IsValid env (policy_decisions p.pending) p v)
