-- ===== src/Safety/Panic.antt =====
-- internal/safety/panic.go, and `PanicWith` of internal/safety/apply.go: every managed route is removed.
pub mod Kept
pub mod Flushed
use riftroute.Base.{
  String, if◌then◌else◌, Bool, true, false, not, List, [], ◌∷◌, ◌++◌, Option, none, some, select,
}
use riftroute.Domain.{family_v4, family_v6, Route, ManagedRoute}
use riftroute.Routing.Plan.{has_route}
use riftroute.Routing.Verify.{Installed, index_installed, has}
use riftroute.Safety.Protocol.{Protocol, Env}
use riftroute.Safety.Protocol.Replay.{audit}
use riftroute.Safety.Protocol.Settle.{settle_for_panic}
use riftroute.Store.{Db, list_owned, clear_owned, del_owned}

abbrev held_by : {K : Type 0} → Env K → List Route → List ManagedRoute → List ManagedRoute
held_by env kernel rs =
    select (λ (r : ManagedRoute). has env.syntax (index_installed env.syntax kernel) r.route) rs

abbrev is_ok {ℓ} : {A : Type ℓ} → Option A → Bool
is_ok none = true
is_ok (some e) = false

-- `stillInstalled`: what failed and is still in the kernel, all of it when a table can't be read.
module _ {K : Type 0} (env : Env K) where
  unfoldable pub still_installed : K → List ManagedRoute → List ManagedRoute
  still_installed k rs = elim (env.list_routes k family_v4) [
    | none ↦ rs
    | some v4 ↦ elim (env.list_routes k family_v6) [
      | none ↦ rs
      | some v6 ↦ held_by env (v4 ++ v6) rs
    ]
  ]

  -- The deletes, and the routes whose delete failed.
  unfoldable pub delete_all : List ManagedRoute → K → K × List ManagedRoute
  delete_all [] k = (k, [])
  delete_all (m ∷ ms) k =
      let (k', e) = env.prov.del_route m k in
      let (last, failed) = delete_all ms k' in (last, if is_ok e then failed else m ∷ failed)

  -- The kernel after the deletes and the provider's sweep, and the routes that are still in it.
  unfoldable pub swept : K → List ManagedRoute → K × List ManagedRoute
  unfolding delete_all still_installed
  swept k owned =
      let (k', failed) = delete_all owned k in
      let last = env.flush_owned k' in (last, still_installed last failed)

module _ {K P : Type 0} (env : Env K) where
  -- The records that go when some routes stay: all but theirs, by their keys.
  unfoldable pub drop_records : List ManagedRoute → List ManagedRoute → Db P → Db P
  drop_records keep [] db = db
  drop_records keep (m ∷ ms) db =
      let dropped = (del_owned env.fail m db).0 in
      drop_records keep ms (if has_route keep m then db else dropped)

  -- The routes left, and whether there is an error: they are left, or the clearing failed.
  unfoldable pub forget_owned :
      List ManagedRoute → List ManagedRoute → Db P → Db P × List ManagedRoute × Bool
  unfolding drop_records
  forget_owned owned [] db = let (db', e) = clear_owned env.fail db in (db', [], e)
  forget_owned owned (m ∷ ms) db = (drop_records (m ∷ ms) owned db, m ∷ ms, true)

  abbrev pub recorded : Db P → List ManagedRoute
  recorded db = elim (list_owned env.fail db) [ none ↦ [] | some os ↦ os ]

  -- `Panic`: the kernel and the database after it, the routes left, and whether it returns an error.
  unfoldable pub flush : K → Db P → K × Db P × List ManagedRoute × Bool
  unfolding forget_owned swept
  flush k db =
      let owned = recorded db in
      let (last, failed) = swept env k owned in
      let (db', left, error) = forget_owned owned failed db in (last, db', left, error)

module _ {K R P : Type 0} (env : Env K) where
  -- `panicWith`, from where it holds the lock; `flushing` is the caller's step. The last component is
  -- whether it returns an error.
  unfoldable pub panic_flush : String → (R → R) → Protocol K R P → Protocol K R P × Bool
  unfolding flush
  panic_flush actor flushing p =
      let q = settle_for_panic env p in
      let (k, db, left, error) = flush env q.kernel q.db in
      let result : String = if error then "panic-error" else "panicked" in
      (
        record q {
          kernel = k;
          db = audit env actor "panic" result "" none true [] db;
          outside = flushing q.outside;
        },
        error,
      )
