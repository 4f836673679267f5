-- ===== src/Netip/Siblings.antt =====
-- A parent block is exactly its two halves.
use text.Mathlib.TextEquality.{eq_iff}
use riftroute.Base.{
  ℕ, ◌-◌, ◌/◌, ◌^◌, ◌<◌, true, false, ◌||◌, ◌≡◌, ◌≢◌, sym, ap, ◌∙◌, inl, inr, arith, div-pow-suc,
  bool_ext, Bool-cases, bool_eq_refl,
}
use riftroute.Netip.{Addr, Prefix, width, addr, prefix_from, addr_eq, open_bits, contains}
use riftroute.Netip.Blocks.{
  IsMasked, Inside, parent, contains→Inside, Inside→contains, high_ne, same_half, Inside-parent,
  parent-open, parent-high, contains-masked, contains_trans, parent-bits,
}

-- Prefixes of one family that differ as addresses differ in value.
addr-ne : (p q : Prefix) → p.is4 ≡ q.is4 → addr_eq (addr p) (addr q) ≡ false → p.value ≢ q.value
unfolding addr_eq
addr-ne p q f h e = ground (arith, bool_eq_refl p.is4, eq_iff "" "")

-- Every address of a block lies in the block's parent.
pub contains-parent :
    (p : Prefix) (a : Addr) → 0 < p.bits → contains p a ≡ true → contains (parent p) a ≡ true
unfolding parent
contains-parent p a pos h =
    contains-masked (prefix_from (addr p) (p.bits - 1)) a
    ∙ Inside→contains (prefix_from (addr p) (p.bits - 1)) a (record {
      valid = omega (arith, i.valid);
      no_zone = i.no_zone;
      family = i.family;
      high = up;
    })
  where
    i : Inside p a
    i = contains→Inside p a h

    up : a.value / 2 ^ (width p.is4 - (p.bits - 1)) ≡ p.value / 2 ^ (width p.is4 - (p.bits - 1))
    up = rw (parent-open p pos i.valid) (
        rw (div-pow-suc a.value (open_bits p), div-pow-suc p.value (open_bits p))
          (ap (λ (x : ℕ). x / 2) i.high))

-- Two masked prefixes of one length inside one parent, with different addresses, are its halves: the
-- parent contains an address exactly when one of them does.
module _ (p q : Prefix) (mp : IsMasked p) (mq : IsMasked q) (pos : 0 < p.bits)
    (len : p.bits ≡ q.bits) (sib : contains (parent p) (addr q) ≡ true)
    (ne : addr_eq (addr p) (addr q) ≡ false) where
  fam : p.is4 ≡ q.is4
  fam = (Inside-parent p (addr q) sib).family

  same_open : open_bits p ≡ open_bits q
  same_open = omega (arith, ap width fam)

  high_differs : p.value / 2 ^ open_bits p ≢ q.value / 2 ^ open_bits p
  high_differs =
      high_ne p.value q.value (open_bits p) mp.aligned (rw same_open mq.aligned)
        (addr-ne p q fam ne)

  one_half : (a : Addr) → contains (parent p) a ≡ true → (contains p a || contains q a) ≡ true
  one_half a h =
      elim (same_half _ _ _ high_differs (parent-high p (addr q) pos mp.valid sib)
        (parent-high p a pos mp.valid h)) [
          | inl e ↦ ground (
            arith,
            Inside→contains p a
                (record { valid = mp.valid; no_zone = i.no_zone; family = i.family; high = e }),
          )
          | inr e ↦ ground (
            arith,
            Inside→contains q a (record {
              valid = mq.valid;
              no_zone = i.no_zone;
              family = sym fam ∙ i.family;
              high = rw (← same_open) e;
            }),
          )
        ]
    where
      i : Inside (prefix_from (addr p) (p.bits - 1)) a
      i = Inside-parent p a h

  in_parent : (a : Addr) → contains q a ≡ true → contains (parent p) a ≡ true
  in_parent a h = contains_trans q (parent p) a (omega (arith, parent-bits p)) sib h

  pub contains-parent_halves : (a : Addr) → contains (parent p) a ≡ (contains p a || contains q a)
  contains-parent_halves a =
      bool_ext (contains (parent p) a) (contains p a || contains q a) (one_half a)
        (λ h. ground (arith, contains-parent p a pos, in_parent a))

  -- No address lies in both halves.
  pub halves_apart : (a : Addr) → contains p a ≡ true → contains q a ≡ false
  halves_apart a h = elim (Bool-cases (contains q a)) [
    | inl e ↦ absurd (
        high_differs (sym (contains→Inside p a h).high ∙ rw same_open (contains→Inside q a e).high))
    | inr e ↦ e
  ]
