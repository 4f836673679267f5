-- ===== src/Safety/Panic/Flushed.antt =====
-- internal/safety/panic.go: which routes a panic reports as left, and which rows it leaves recorded.
use mathlib.Core.Path.{subst}
use riftroute.Base.{
  if◌then◌else◌, Bool, true, false, not, ◌&&◌, ◌||◌, List, [], ◌∷◌, ◌++◌, any, select, none, some,
  ◌≡◌, refl, sym, ap, ◌∙◌, inl, inr, Bool-cases, Option-cases, arith,
}
use riftroute.Domain.{family_v4, family_v6, ManagedRoute}
use riftroute.Routing.Plan.{has_route}
use riftroute.Routing.Verify.{index_installed, has}
use riftroute.Safety.Panic.{
  still_installed, recorded, swept, drop_records, forget_owned, flush, delete_all,
}
use riftroute.Safety.Protocol.{Env}
use riftroute.Store.{Db, same_row, list_owned, clear_owned, del_owned}
use riftroute.Store.Rows.{find_row, find_row-delete}

abbrev pub is_none {ℓ} : {A : Type ℓ} → List A → Bool
is_none [] = true
is_none (a ∷ more) = false

select-true : {A : Type 0} (xs : List A) → select (λ (x : A). true) xs ≡ xs
select-true [] = refl
select-true (x ∷ xs) = ap (◌∷◌ x) (select-true xs)

module _ {K : Type 0} (env : Env K) where
  -- Whether a route may still be in the kernel: it is, or a table can't be read.
  abbrev pub may_remain : K → ManagedRoute → Bool
  may_remain k = elim (env.list_routes k family_v4) [
    | none ↦ λ m. true
    | some v4 ↦ elim (env.list_routes k family_v6) [
      | none ↦ λ m. true
      | some v6 ↦ λ m. has env.syntax (index_installed env.syntax (v4 ++ v6)) m.route
    ]
  ]

  still_installed-may_remain :
      (k : K) (rs : List ManagedRoute) → still_installed env k rs ≡ select (may_remain k) rs
  unfolding still_installed
  still_installed-may_remain k rs = elim (Option-cases (env.list_routes k family_v4)) [
    | inl a ↦ rw (still_installed, may_remain, a) (sym (select-true rs))
    | inr (v4, a) ↦ elim (Option-cases (env.list_routes k family_v6)) [
      | inl b ↦ rw (still_installed, may_remain, a, b) (sym (select-true rs))
      | inr (v6, b) ↦ rw (still_installed, may_remain, a, b)
    ]
  ]

  -- Whether a row's record goes when some routes stay: a route of the row is none of theirs, and its
  -- delete from the table does not fail.
  abbrev pub goes : List ManagedRoute → List ManagedRoute → ManagedRoute → Bool
  goes left owned m =
      any
        (λ (o : ManagedRoute).
          same_row o m && (not (has_route left o) && not (env.fail.del_owned o)))
        owned

module _ {K P : Type 0} (env : Env K) where
  find_row-del_owned :
      (m o : ManagedRoute) (db : Db P)
      → find_row m (del_owned env.fail o db).0.owned
        ≡ (if same_row o m && not (env.fail.del_owned o) then none else find_row m db.owned)
  unfolding del_owned
  find_row-del_owned m o db = elim (Bool-cases (env.fail.del_owned o)) [
    | inl y ↦ rw y (ground arith)
    | inr k ↦ rw k (find_row-delete o m db.owned ∙ ground arith)
  ]

  find_row-drop_records :
      (keep owned : List ManagedRoute) (m : ManagedRoute) (db : Db P)
      → find_row m (drop_records env keep owned db).owned
        ≡ (if goes env keep owned m then none else find_row m db.owned)
  unfolding drop_records
  find_row-drop_records keep [] m db = refl
  find_row-drop_records keep (o ∷ os) m db = elim (Bool-cases (has_route keep o)) [
    | inl y ↦ rw (drop_records, y) (find_row-drop_records keep os m db ∙ ground arith)
    | inr n ↦
        rw (drop_records, n)
          (ground (
            arith,
            find_row-drop_records keep os m (del_owned env.fail o db).0,
            find_row-del_owned m o db,
          ))
  ]

  -- What a panic reports and leaves recorded, by the routes whose delete failed.
  pub record Flushed (db : Db P) (refused : List ManagedRoute)
      (out : K × Db P × List ManagedRoute × Bool) : Type 0 where
    pub left : out.2 ≡ select (may_remain env out.0) refused
    pub rows :
        (m : ManagedRoute)
        → find_row m out.1.owned ≡ (
            if is_none out.2
            then (if env.fail.clear_owned then find_row m db.owned else none)
            else if goes env out.2 db.owned m
            then none
            else find_row m db.owned)
    pub error : out.3 ≡ (not (is_none out.2) || env.fail.clear_owned)

  forget_owned_left :
      (owned failed : List ManagedRoute) (db : Db P) → (forget_owned env owned failed db).1 ≡ failed
  unfolding forget_owned
  forget_owned_left owned [] db = refl
  forget_owned_left owned (m ∷ ms) db = refl

  forget_owned_rows :
      (owned failed : List ManagedRoute) (db : Db P) (m : ManagedRoute)
      → find_row m (forget_owned env owned failed db).0.owned ≡ (
          if is_none failed
          then (if env.fail.clear_owned then find_row m db.owned else none)
          else if goes env failed owned m
          then none
          else find_row m db.owned)
  unfolding forget_owned clear_owned
  forget_owned_rows owned [] db m = ground arith
  forget_owned_rows owned (x ∷ xs) db m = find_row-drop_records (x ∷ xs) owned m db

  forget_owned_error :
      (owned failed : List ManagedRoute) (db : Db P)
      → (forget_owned env owned failed db).2 ≡ (not (is_none failed) || env.fail.clear_owned)
  unfolding forget_owned clear_owned
  forget_owned_error owned [] db = ground arith
  forget_owned_error owned (m ∷ ms) db = refl

  flush_of :
      (k : K) (db : Db P) (owned : List ManagedRoute)
      → recorded env db ≡ owned
      → flush env k db ≡ (
        (swept env k owned).0,
        (forget_owned env owned (swept env k owned).1 db).0,
        (forget_owned env owned (swept env k owned).1 db).1,
        (forget_owned env owned (swept env k owned).1 db).2,
      )
  unfolding flush
  flush_of k db owned e = rw (flush, e)

  recorded_owned : (db : Db P) → env.fail.list_owned ≡ false → recorded env db ≡ db.owned
  unfolding list_owned
  recorded_owned db l = rw l refl

  forget_owned-Flushed :
      (k : K) (db : Db P) (failed : List ManagedRoute)
      → Flushed db failed (
        k,
        (forget_owned env db.owned (still_installed env k failed) db).0,
        (forget_owned env db.owned (still_installed env k failed) db).1,
        (forget_owned env db.owned (still_installed env k failed) db).2,
      )
  forget_owned-Flushed k db failed =
      let left = forget_owned_left db.owned (still_installed env k failed) db in
      record {
        left = left ∙ still_installed-may_remain env k failed;
        rows = λ m. rw left (forget_owned_rows db.owned (still_installed env k failed) db m);
        error = rw left (forget_owned_error db.owned (still_installed env k failed) db);
      }

  -- For any kernel, any provider and any database that can be read: the routes that a panic leaves are
  -- those whose delete failed and which, after the provider's sweep, the kernel holds or a table can't
  -- be read. If there are none, no row stays recorded, unless the clearing fails. Else exactly those
  -- rows go of which some route is not left and whose delete from the table does not fail; every other
  -- row stays as it was. It returns an error exactly if a route is left or the clearing failed.
  pub flush-Flushed :
      (k : K) (db : Db P)
      → env.fail.list_owned ≡ false
      → Flushed db (delete_all env db.owned k).1 (flush env k db)
  unfolding swept
  flush-Flushed k db l =
      subst (Flushed db (delete_all env db.owned k).1)
        (sym (flush_of k db db.owned (recorded_owned db l)))
        (forget_owned-Flushed (swept env k db.owned).0 db (delete_all env db.owned k).1)
