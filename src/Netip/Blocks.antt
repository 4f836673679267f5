-- ===== src/Netip/Blocks.antt =====
-- Prefixes as blocks of addresses: masked prefixes, containment between them, and their parents.
use text.Mathlib.TextEquality.{eq_iff}
use native.Mathlib.Nat.{mul-div_cancel, mul-mod_left, div-add-mod'}
use riftroute.Base.{
  ℕ, suc, ◌+◌, ◌-◌, ◌*◌, ◌/◌, ◌%◌, ◌^◌, ◌≤◌, ◌<◌, true, ◌≡◌, ◌≢◌, refl, sym, ap, ◌∙◌, ◌⊎◌, arith,
  pow_pos, div-pow-suc, div-pow_mono, bool_eq→eq, bool_eq_refl,
}
use riftroute.Netip.{Addr, Prefix, width, addr, prefix_from, open_bits, masked, contains}

-- A prefix as `masked` leaves it: valid, and its open bits zero.
pub record IsMasked (p : Prefix) : Type 0 where
  pub valid : p.bits ≤ width p.is4
  pub aligned : p.value % 2 ^ open_bits p ≡ 0

-- The parent block of a prefix: one bit shorter, masked.
unfoldable pub parent : Prefix → Prefix
parent p = masked (prefix_from (addr p) (p.bits - 1))

pub masked-IsMasked : (p : Prefix) → p.bits ≤ width p.is4 → IsMasked (masked p)
unfolding masked
masked-IsMasked p h = record {
  valid = h;
  aligned = mul-mod_left (p.value / 2 ^ open_bits p) (2 ^ open_bits p);
}

pub parent-IsMasked : (p : Prefix) → IsMasked p → IsMasked (parent p)
unfolding parent
parent-IsMasked p m = masked-IsMasked (prefix_from (addr p) (p.bits - 1)) (omega (arith, m.valid))

-- Masking does not change which addresses a prefix contains.
pub contains-masked : (p : Prefix) (a : Addr) → contains (masked p) a ≡ contains p a
unfolding contains masked
contains-masked p a = rw (mul-div_cancel (p.value / 2 ^ open_bits p) (pow_pos (open_bits p)))

-- What `contains` tests, as facts.
pub record Inside (p : Prefix) (a : Addr) : Type 0 where
  pub valid : p.bits ≤ width p.is4
  pub no_zone : a.zone ≡ ""
  pub family : p.is4 ≡ a.is4
  pub high : a.value / 2 ^ open_bits p ≡ p.value / 2 ^ open_bits p

pub contains→Inside : (p : Prefix) (a : Addr) → contains p a ≡ true → Inside p a
unfolding contains
contains→Inside p a h = ground (arith, eq_iff a.zone "", bool_eq→eq p.is4 a.is4)

pub Inside→contains : (p : Prefix) (a : Addr) → Inside p a → contains p a ≡ true
unfolding contains
Inside→contains p a h =
    ground (arith, eq_iff a.zone "", bool_eq_refl p.is4, h.valid, h.no_zone, h.family, h.high)

-- A shorter prefix that contains another's address contains all of the other.
pub Inside-trans :
    {p q : Prefix} {a : Addr} → q.bits ≤ p.bits → Inside q (addr p) → Inside p a → Inside q a
Inside-trans {p} {q} {a} le hq hp = record {
  valid = hq.valid;
  no_zone = hp.no_zone;
  family = hq.family ∙ hp.family;
  high =
      rw (← wider) (div-pow_mono a.value p.value (open_bits p) (p.bits - q.bits) hp.high) ∙ hq.high;
}
  where
    wider : p.bits - q.bits + open_bits p ≡ open_bits q
    wider = omega (arith, ap width hq.family, hp.valid)

pub contains_trans :
    (p q : Prefix) (a : Addr)
    → q.bits ≤ p.bits
    → contains q (addr p) ≡ true
    → contains p a ≡ true
    → contains q a ≡ true
contains_trans p q a le hq hp =
    Inside→contains q a (Inside-trans le (contains→Inside q (addr p) hq) (contains→Inside p a hp))

-- A masked prefix contains its own address.
pub Inside-self : (p : Prefix) → p.bits ≤ width p.is4 → Inside p (addr p)
Inside-self p h = record { valid = h; no_zone = refl; family = refl; high = refl }

-- Two masked prefixes of one length with different addresses differ above their open bits.
pub high_ne : (v w s : ℕ) → v % 2 ^ s ≡ 0 → w % 2 ^ s ≡ 0 → v ≢ w → v / 2 ^ s ≢ w / 2 ^ s
high_ne v w s hv hw ne e =
    ne (omega (arith, div-add-mod' v (2 ^ s), div-add-mod' w (2 ^ s), ap (λ (x : ℕ). x * 2 ^ s) e))

-- Of the three blocks v, w and a inside one block of twice the size, two are the same.
pub same_half : (v w a : ℕ) → v ≢ w → w / 2 ≡ v / 2 → a / 2 ≡ v / 2 → (a ≡ v) ⊎ (a ≡ w)
same_half v w a ne h k = grind arith

-- The parent of a non-empty prefix, unmasked: it contains the same addresses as `parent`.
pub Inside-parent :
    (p : Prefix) (a : Addr)
    → contains (parent p) a ≡ true
    → Inside (prefix_from (addr p) (p.bits - 1)) a
unfolding parent
Inside-parent p a h =
    contains→Inside (prefix_from (addr p) (p.bits - 1)) a
      (sym (contains-masked (prefix_from (addr p) (p.bits - 1)) a) ∙ h)

pub parent-open :
    (p : Prefix)
    → 0 < p.bits
    → p.bits ≤ width p.is4
    → width p.is4 - (p.bits - 1) ≡ suc (open_bits p)
parent-open p h v = omega arith

pub parent-high :
    (p : Prefix) (a : Addr)
    → 0 < p.bits
    → p.bits ≤ width p.is4
    → contains (parent p) a ≡ true
    → a.value / 2 ^ open_bits p / 2 ≡ p.value / 2 ^ open_bits p / 2
parent-high p a pos v h =
    rw
      (
        ← div-pow-suc a.value (open_bits p),
        ← div-pow-suc p.value (open_bits p),
        ← parent-open p pos v,
      )
      (Inside-parent p a h).high

pub parent-bits : (p : Prefix) → (parent p).bits ≡ p.bits - 1
unfolding parent masked
parent-bits p = refl

-- Of two prefixes that share an address, the shorter contains the longer one's address.
pub Inside-nested :
    {p q : Prefix} {a : Addr} → q.bits ≤ p.bits → Inside q a → Inside p a → Inside q (addr p)
Inside-nested {p} {q} {a} le hq hp = record {
  valid = hq.valid;
  no_zone = refl;
  family = hq.family ∙ sym hp.family;
  high =
      sym (rw (← wider) (div-pow_mono a.value p.value (open_bits p) (p.bits - q.bits) hp.high))
      ∙ hq.high;
}
  where
    wider : p.bits - q.bits + open_bits p ≡ open_bits q
    wider = omega (arith, ap width (hq.family ∙ sym hp.family), hp.valid)

-- A masked prefix's address is the least that it contains.
pub Inside-value : {p : Prefix} {a : Addr} → IsMasked p → Inside p a → p.value ≤ a.value
Inside-value {p} {a} m h = omega (
  arith,
  m.aligned,
  div-add-mod' p.value (2 ^ open_bits p),
  div-add-mod' a.value (2 ^ open_bits p),
  ap (λ (x : ℕ). x * 2 ^ open_bits p) h.high,
)
