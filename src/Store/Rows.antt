-- ===== src/Store/Rows.antt =====
-- The tables of internal/store/store.go as maps: what a statement does to the row of each key.
use riftroute.Base.{
  ==_iff, str_eq, str_eq_iff, if◌then◌else◌, true, false, not, List, [], ◌∷◌, Option, none, some,
  select, bool_eq_refl, ◌≡◌, refl, sym, ◌∙◌, ◌⊎◌, inl, inr, arith, Bool-cases, and_true,
}
use riftroute.Domain.{ManagedRoute}
use riftroute.Store.{TxId, same_id, Entry, same_row, upsert_owned, upsert_entry}

-- The row of a route's key, and the entry of an id.
abbrev pub find_row : ManagedRoute → List ManagedRoute → Option ManagedRoute
find_row m [] = none
find_row m (o ∷ os) = if same_row o m then some o else find_row m os

abbrev pub find_entry : TxId → List Entry → Option Entry
find_entry id [] = none
find_entry id (e ∷ es) = if same_id e.id id then some e else find_entry id es

pub same_id_refl : (a : TxId) → same_id a a ≡ true
same_id_refl a = rw (bool_eq_refl a.route_op, (==_iff a.seq a.seq).1 refl)

pub same_id→seq : (a b : TxId) → same_id a b ≡ true → a.seq ≡ b.seq
same_id→seq a b h = ground arith

-- Two rows that share a key with a third share it.
pub same_row_refl : (a : ManagedRoute) → same_row a a ≡ true
unfolding same_row
same_row_refl a =
    rw
      (
        (str_eq_iff a.route.family a.route.family).1 refl,
        (str_eq_iff a.route.dst_cidr a.route.dst_cidr).1 refl,
        (str_eq_iff a.route.gateway a.route.gateway).1 refl,
        (str_eq_iff a.route.iface a.route.iface).1 refl,
      )
      refl

-- The fields of a row's key.
pub record RowEq (a b : ManagedRoute) : Type 0 where
  pub family : a.route.family ≡ b.route.family
  pub dst : a.route.dst_cidr ≡ b.route.dst_cidr
  pub gateway : a.route.gateway ≡ b.route.gateway
  pub iface : a.route.iface ≡ b.route.iface

pub same_row-RowEq : (a b : ManagedRoute) → same_row a b ≡ true → RowEq a b
unfolding same_row
same_row-RowEq a b h =
    let (f, r₁) = and_true (str_eq a.route.family b.route.family) _ h in
    let (d, r₂) = and_true (str_eq a.route.dst_cidr b.route.dst_cidr) _ r₁ in
    let (g, i) = and_true (str_eq a.route.gateway b.route.gateway) _ r₂ in
    record {
      family = (str_eq_iff a.route.family b.route.family).0 f;
      dst = (str_eq_iff a.route.dst_cidr b.route.dst_cidr).0 d;
      gateway = (str_eq_iff a.route.gateway b.route.gateway).0 g;
      iface = (str_eq_iff a.route.iface b.route.iface).0 i;
    }

pub same_row-congr : (a b c : ManagedRoute) → same_row a b ≡ true → same_row a c ≡ same_row b c
unfolding same_row
same_row-congr a b c h =
    let e = same_row-RowEq a b h in rw (e.family, e.dst, e.gateway, e.iface) refl

pub same_row-congr_right :
    (a b c : ManagedRoute) → same_row a b ≡ true → same_row c a ≡ same_row c b
unfolding same_row
same_row-congr_right a b c h =
    let e = same_row-RowEq a b h in rw (e.family, e.dst, e.gateway, e.iface) refl

-- A row with another key than m's has another key than any row with m's.
apart :
    (m o x : ManagedRoute)
    → same_row x m ≡ false
    → (same_row m o ≡ false) ⊎ ((same_row m o ≡ true) × (same_row x o ≡ false))
apart m o x n = elim (Bool-cases (same_row m o)) [
  | inl y ↦ inr (y, sym (same_row-congr_right m o x y) ∙ n)
  | inr z ↦ inl z
]

-- After an insert the key's row is the new one, and every other key's is what it was.
pub find_row-upsert_owned :
    (m o : ManagedRoute) (os : List ManagedRoute)
    → find_row o (upsert_owned m os) ≡ (if same_row m o then some m else find_row o os)
unfolding upsert_owned
find_row-upsert_owned m o [] = refl
find_row-upsert_owned m o (x ∷ xs) = elim (Bool-cases (same_row x m)) [
  | inl y ↦ rw (y, same_row-congr x m o y) (ground arith)
  | inr n ↦ rw n (ground (arith, find_row-upsert_owned m o xs, apart m o x n))
]

pub find_row-delete :
    (m o : ManagedRoute) (os : List ManagedRoute)
    → find_row o (select (λ x. not (same_row x m)) os)
      ≡ (if same_row m o then none else find_row o os)
find_row-delete m o [] = ground arith
find_row-delete m o (x ∷ xs) = elim (Bool-cases (same_row x m)) [
  | inl y ↦ rw (y, same_row-congr x m o y) (ground (arith, find_row-delete m o xs))
  | inr n ↦ rw n (ground (arith, find_row-delete m o xs, apart m o x n))
]

pub find_entry-upsert_entry :
    (e : Entry) (es : List Entry) → find_entry e.id (upsert_entry e es) ≡ some e
unfolding upsert_entry
find_entry-upsert_entry e [] = rw (same_id_refl e.id)
find_entry-upsert_entry e (f ∷ fs) = elim (Bool-cases (same_id f.id e.id)) [
  | inl y ↦ rw (y, same_id_refl e.id)
  | inr n ↦ rw (n, n) (find_entry-upsert_entry e fs)
]
