-- ===== src/Store.antt =====
-- internal/store/store.go: the tables that the apply protocol keeps, as lists of rows; a row is the
-- document that was written. A statement that fails changes nothing and returns an error: which ones
-- do is a parameter, `Faults`.
pub mod Rows
use riftroute.Base.{
  ℕ, zero, suc, ◌==◌, leb, String, str_eq, if◌then◌else◌, Bool, true, false, not, ◌&&◌, List, [],
  ◌∷◌, ◌++◌, Option, none, some, any, select, bool_eq,
}
use riftroute.Domain.{Route, PolicyRule, ManagedRoute, Plan}

-- A transaction's id: `tx-<n>`, or `routeop-<n>` for a plan that is not recorded as owned.
pub record TxId : Type 0 where
  pub route_op : Bool
  pub seq : ℕ

abbrev pub same_id : TxId → TxId → Bool
same_id a b = bool_eq a.route_op b.route_op && a.seq == b.seq

-- A row of `pending_tx`. The format is `none` when it is no number, the document when it is no plan.
pub record Entry : Type 0 where
  pub id : TxId
  pub format : Option ℕ
  pub doc : Option Plan

abbrev pub wal_format : ℕ
wal_format = 1

-- domain.AuditEvent, without the time, the timing and the profile; a reason printed from an error is
-- left empty.
pub record AuditEvent : Type 0 where
  pub actor : String
  pub action : String
  pub result : String
  pub reason : String
  pub plan : Option Plan
  pub rollback : Bool
  pub codes : List String

-- domain.Snapshot, without the DNS state and the defaults; `profiles` is `none` for null.
pub record Snapshot (P : Type 0) : Type 0 where
  pub id : ℕ
  pub reason : String
  pub routes_v4 : List Route
  pub routes_v6 : List Route
  pub rules : List PolicyRule
  pub profiles : Option (List P)

-- The tables, with the newest snapshot and audit event first.
pub record Db (P : Type 0) : Type 0 where
  pub owned : List ManagedRoute
  pub journal : List Entry
  pub audit : List AuditEvent
  pub snapshots : List (Snapshot P)
  pub profiles : List P

-- Which statements fail.
pub record Faults : Type 0 where
  pub add_owned : ManagedRoute → Bool
  pub del_owned : ManagedRoute → Bool
  pub list_owned : Bool
  pub clear_owned : Bool
  pub put_pending : TxId → Bool
  pub clear_pending : TxId → Bool
  pub list_pending : Bool
  pub append_audit : Bool
  pub save_snapshot : Bool
  pub prune_snapshots : Bool
  pub list_profiles : Bool

abbrev pub no_faults : Faults
no_faults = record {
  add_owned = λ m. false;
  del_owned = λ m. false;
  list_owned = false;
  clear_owned = false;
  put_pending = λ i. false;
  clear_pending = λ i. false;
  list_pending = false;
  append_audit = false;
  save_snapshot = false;
  prune_snapshots = false;
  list_profiles = false;
}

-- The key of `ownership`: family, destination, gateway and interface.
unfoldable pub same_row : ManagedRoute → ManagedRoute → Bool
same_row a b =
    str_eq a.route.family b.route.family
    && (str_eq a.route.dst_cidr b.route.dst_cidr
        && (str_eq a.route.gateway b.route.gateway && str_eq a.route.iface b.route.iface))

-- `INSERT … ON CONFLICT DO UPDATE`: a row with the key is rewritten where it stands, which keeps the
-- order by `created_at`, else the row is new.
unfoldable pub upsert_owned : ManagedRoute → List ManagedRoute → List ManagedRoute
unfolding same_row
upsert_owned m [] = m ∷ []
upsert_owned m (o ∷ os) = let rest = upsert_owned m os in if same_row o m then m ∷ os else o ∷ rest

unfoldable pub upsert_entry : Entry → List Entry → List Entry
upsert_entry e [] = e ∷ []
upsert_entry e (f ∷ fs) =
    let rest = upsert_entry e fs in if same_id f.id e.id then e ∷ fs else f ∷ rest

-- A row that this binary reads.
abbrev pub readable : Entry → Option Plan
readable e = elim e.format [ none ↦ none | some n ↦ if leb n wal_format then e.doc else none ]

-- `ListPendingTx`: the plans that can be read, and the entries that can't.
abbrev pub add_read : TxId → Option Plan → List (TxId × Plan) → List (TxId × Plan)
add_read id none l = l
add_read id (some p) l = (id, p) ∷ l

abbrev pub add_unread : TxId → Option Plan → List TxId → List TxId
add_unread id none l = id ∷ l
add_unread id (some p) l = l

unfoldable pub read_entries : List Entry → List (TxId × Plan)
read_entries [] = []
read_entries (e ∷ es) = add_read e.id (readable e) (read_entries es)

unfoldable pub unreadable : List Entry → List TxId
unreadable [] = []
unreadable (e ∷ es) = add_unread e.id (readable e) (unreadable es)

-- The methods over the database; the second component is whether the call failed.
module _ {P : Type 0} (fail : Faults) where
  unfoldable pub add_owned : ManagedRoute → Db P → Db P × Bool
  add_owned m db =
      if fail.add_owned m
      then (db, true)
      else (record db { owned = upsert_owned m db.owned }, false)

  unfoldable pub del_owned : ManagedRoute → Db P → Db P × Bool
  unfolding same_row
  del_owned m db =
      if fail.del_owned m
      then (db, true)
      else (record db { owned = select (λ o. not (same_row o m)) db.owned }, false)

  unfoldable pub clear_owned : Db P → Db P × Bool
  clear_owned db = if fail.clear_owned then (db, true) else (record db { owned = [] }, false)

  unfoldable pub list_owned : Db P → Option (List ManagedRoute)
  list_owned db = if fail.list_owned then none else some db.owned

  unfoldable pub put_pending_tx : TxId → Plan → Db P → Db P × Bool
  put_pending_tx id plan db =
      let e : Entry = record { id = id; format = some wal_format; doc = some plan } in
      if fail.put_pending id
      then (db, true)
      else (record db { journal = upsert_entry e db.journal }, false)

  unfoldable pub clear_pending_tx : TxId → Db P → Db P × Bool
  clear_pending_tx id db =
      if fail.clear_pending id
      then (db, true)
      else (record db { journal = select (λ (e : Entry). not (same_id e.id id)) db.journal }, false)

  unfoldable pub list_pending_tx : Db P → Option (List (TxId × Plan) × List TxId)
  list_pending_tx db =
      if fail.list_pending then none else some (read_entries db.journal, unreadable db.journal)

  unfoldable pub append_audit : AuditEvent → Db P → Db P
  append_audit e db = if fail.append_audit then db else record db { audit = e ∷ db.audit }

  -- `SaveSnapshot` and `PruneSnapshots`; the newest snapshot is the one saved last.
  unfoldable pub save_snapshot : Snapshot P → Db P → Db P
  save_snapshot snap db =
      let others = select (λ (s : Snapshot P). not (s.id == snap.id)) db.snapshots in
      if fail.save_snapshot then db else record db { snapshots = snap ∷ others }

  keep_newest : ℕ → List (Snapshot P) → List (Snapshot P)
  keep_newest zero ss = []
  keep_newest (suc n) [] = []
  keep_newest (suc n) (s ∷ ss) = s ∷ keep_newest n ss

  unfoldable pub prune_snapshots : ℕ → Db P → Db P
  unfolding keep_newest
  prune_snapshots keep db =
      if keep == 0
      then db
      else if fail.prune_snapshots
      then db
      else record db { snapshots = keep_newest keep db.snapshots }

  unfoldable pub list_profiles : Db P → Option (List P)
  list_profiles db = if fail.list_profiles then none else some db.profiles
