-- ===== src/Safety/Protocol/Startup.antt =====
-- internal/safety/apply.go: what runs at startup, before and after the journal's replay.
use riftroute.Base.{
  ℕ, suc, str_eq, if◌then◌else◌, Bool, true, false, not, ◌&&◌, List, [], ◌∷◌, Option, none, some,
}
use riftroute.Domain.{ManagedRoute, Plan}
use riftroute.Routing.Plan.{has_route}
use riftroute.Routing.Verify.{is_tunnel_route}
use riftroute.Safety.Executor.{run_ops}
use riftroute.Safety.Protocol.{Env}
use riftroute.Safety.Protocol.Replay.{without_tunnel_links, apply_ownership, audit}
use riftroute.Safety.Protocol.Apply.{provider_managed}
use riftroute.Store.{TxId, Db, clear_pending_tx, list_pending_tx, list_owned, del_owned}

-- The kernel and the database.
pub record Host (K P : Type 0) : Type 0 where
  pub kernel : K
  pub db : Db P

abbrev is_ok {ℓ} : {A : Type ℓ} → Option A → Bool
is_ok none = true
is_ok (some e) = false

-- A tunnel's route that a previous run left, unless it rejects.
abbrev pub is_left : ManagedRoute → Bool
is_left o = is_tunnel_route o && not o.route.reject

count : List (TxId × Plan) → ℕ
count [] = 0
count (e ∷ es) = suc (count es)

module _ {K : Type 0} (env : Env K) where
  -- `ReconcileOwnership`: the kernel's managed routes follow the database.
  unfoldable pub readd_missing : List ManagedRoute → List ManagedRoute → K → K × ℕ
  readd_missing actual [] k = (k, 0)
  readd_missing actual (o ∷ os) k =
      let (k', e) = env.prov.add_route o k in
      let (last, n) = readd_missing actual os k' in
      let skipped = readd_missing actual os k in
      if has_route actual o then skipped else (last, if is_ok e then suc n else n)

  unfoldable pub remove_unowned : List ManagedRoute → List ManagedRoute → K → K × ℕ
  remove_unowned owned [] k = (k, 0)
  remove_unowned owned (a ∷ more) k =
      let (k', e) = env.prov.del_route a k in
      let (last, n) = remove_unowned owned more k' in
      let skipped = remove_unowned owned more k in
      if has_route owned a then skipped else (last, if is_ok e then suc n else n)

module _ {K P : Type 0} (env : Env K) where
  -- One entry of the journal: the errors of `RunOps` are passed over.
  unfoldable pub recover_one : TxId × Plan → Host K P → Host K P
  recover_one (id, plan) h =
      let undone : Db P = if id.route_op then h.db else apply_ownership env plan true h.db in
      let cleared = (clear_pending_tx env.fail id undone).0 in
      record {
        kernel = (run_ops env.prov (without_tunnel_links plan.inverse) h.kernel).0;
        db = audit env "daemon" "recover" "reverted_pending" "" none true [] cleared;
      }

  unfoldable pub recover_all : List (TxId × Plan) → Host K P → Host K P
  unfolding recover_one
  recover_all [] h = h
  recover_all (e ∷ es) h = recover_all es (recover_one e h)

  -- `RecoverPending`, over the entries in the list's order; the entries it could not read are the
  -- error.
  unfoldable pub recover_listed :
      Option (List (TxId × Plan) × List TxId) → Host K P → Host K P × ℕ × Option (List TxId)
  unfolding recover_all count
  recover_listed none h = (h, 0, some [])
  recover_listed (some (es, [])) h = (recover_all es h, count es, none)
  recover_listed (some (es, id ∷ ids)) h = (recover_all es h, count es, some (id ∷ ids))

  unfoldable pub recover_pending : Host K P → Host K P × ℕ × Option (List TxId)
  unfolding recover_listed
  recover_pending h = recover_listed (list_pending_tx env.fail h.db) h

  -- The loop of `DropTunnelRoutes`: a pin that can't be withdrawn keeps its record.
  forget : ManagedRoute → Host K P → Host K P
  forget o h = record h { db = (del_owned env.fail o h.db).0 }

  unfoldable pub drop_one : ManagedRoute → Host K P → Host K P
  unfolding forget
  drop_one o h =
      let (k, e) = env.prov.del_route o h.kernel in
      let pinned : Host K P =
        if is_ok e then forget o (record h { kernel = k }) else record h { kernel = k } in
      if not (is_left o) then h else if str_eq o.route.gateway "" then forget o h else pinned

  unfoldable pub drop_all : List ManagedRoute → Host K P → Host K P
  unfolding drop_one
  drop_all [] h = h
  drop_all (o ∷ os) h = drop_all os (drop_one o h)

  -- `DropTunnelRoutes`, without its count and its audit.
  unfoldable pub drop_tunnel_routes : Host K P → Host K P
  unfolding drop_all
  drop_tunnel_routes h = elim (list_owned env.fail h.db) [ none ↦ h | some os ↦ drop_all os h ]

  unfoldable pub reconcile_ownership : Host K P → Option (K × ℕ × ℕ)
  unfolding readd_missing remove_unowned
  reconcile_ownership h = elim (list_owned env.fail h.db) [
    | none ↦ none
    | some owned ↦
        let actual = provider_managed env h.kernel in
        let (k, added) = readd_missing env actual owned h.kernel in
        let (last, removed) = remove_unowned env owned actual k in some (last, added, removed)
  ]
