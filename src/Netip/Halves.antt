-- ===== src/Netip/Halves.antt =====
-- internal/routing/tunnels.go, `halves`: the two halves of a prefix, which together contain what it
-- contains, and share nothing.
use Prim.Native.Nat.{bit_or}
use native.Mathlib.Nat.{mul-div_cancel, pow-suc}
use riftroute.Base.{
  ℕ, zero, suc, ◌+◌, ◌-◌, ◌*◌, ◌/◌, ◌%◌, ◌^◌, ◌<◌, true, false, ◌||◌, ◌≡◌, refl, sym, ap, ◌∙◌, inl,
  inr, arith, pow_pos, div-pow-suc, bool_ext, Bool-cases, bit_or-pow,
}
use riftroute.Netip.{Addr, Prefix, width, prefix_from, open_bits, masked, contains}
use riftroute.Netip.Blocks.{Inside, contains→Inside, Inside→contains}

-- The source sets the bit in the address's bytes, `raw[bits/8] |= 0x80 >> (bits%8)`: of the number
-- that the bytes spell, that is the bit of weight 2 ^ (width - 1 - bits).
unfoldable pub halves : Prefix → Prefix × Prefix
unfolding masked
halves p =
    let low = (masked p).value in
    (
      prefix_from (record { is4 = p.is4; value = low; zone = "" }) (p.bits + 1),
      prefix_from
          (record { is4 = p.is4; value = bit_or low (2 ^ (width p.is4 - 1 - p.bits)); zone = "" })
          (p.bits + 1),
    )

-- With s + 1 open bits in the whole, a half has s, and bit s tells the halves apart.
double_pow : (c s : ℕ) → c * 2 ^ suc s ≡ c * 2 * 2 ^ s
double_pow c s = omega (arith, ap (λ (t : ℕ). c * t) (pow-suc 2 s))

half_high : (c s : ℕ) → c * 2 ^ suc s / 2 ^ s ≡ c * 2
half_high c s = rw (double_pow c s) (mul-div_cancel (c * 2) (pow_pos s))

half_high_set : (c s : ℕ) → bit_or (c * 2 ^ suc s) (2 ^ s) / 2 ^ s ≡ c * 2 + 1
half_high_set c s = rw (bit_or-pow c s, sum) (mul-div_cancel (c * 2 + 1) (pow_pos s))
  where
    sum : c * 2 ^ suc s + 2 ^ s ≡ (c * 2 + 1) * 2 ^ s
    sum = omega (arith, double_pow c s)

-- A half: one bit longer than the whole, its number twice the whole's and its own digit d.
record IsHalf (p h : Prefix) (s d : ℕ) : Type 0 where
  family : h.is4 ≡ p.is4
  length : h.bits ≡ p.bits + 1
  room : width p.is4 ≡ p.bits + suc s
  digit : d < 2
  number : h.value / 2 ^ s ≡ p.value / 2 ^ suc s * 2 + d

module _ {p h : Prefix} {s d : ℕ} (i : IsHalf p h s d) where
  whole-open : open_bits p ≡ suc s
  whole-open = omega (arith, i.room)

  half-open : open_bits h ≡ s
  half-open = omega (arith, ap width i.family, i.length, i.room)

  half_digit : (a : Addr) → Inside h a → a.value / 2 ^ s ≡ p.value / 2 ^ suc s * 2 + d
  half_digit a m = rw (← i.number, ← half-open) m.high

  in_whole : (a : Addr) → Inside h a → Inside p a
  in_whole a m = record {
    valid = omega (arith, i.room);
    no_zone = m.no_zone;
    family = sym i.family ∙ m.family;
    high = rw whole-open (omega (arith, div-pow-suc a.value s, half_digit a m, i.digit));
  }

  in_half : (a : Addr) → Inside p a → a.value / 2 ^ s % 2 ≡ d → Inside h a
  in_half a m e = record {
    valid = omega (arith, i.room, i.length, ap width i.family);
    no_zone = m.no_zone;
    family = i.family ∙ m.family;
    high = rw (half-open, i.number) (omega (arith, whole_number, div-pow-suc a.value s, e));
  }
    where
      whole_number : a.value / 2 ^ suc s ≡ p.value / 2 ^ suc s
      whole_number = rw (← whole-open) m.high

lo-IsHalf : (p : Prefix) (s : ℕ) → width p.is4 ≡ p.bits + suc s → IsHalf p (halves p).0 s 0
unfolding halves
lo-IsHalf p s e =
    let o : open_bits p ≡ suc s = omega arith in
    record {
      family = refl;
      length = refl;
      room = e;
      digit = omega arith;
      number = rw o (omega (arith, half_high (p.value / 2 ^ suc s) s));
    }

hi-IsHalf : (p : Prefix) (s : ℕ) → width p.is4 ≡ p.bits + suc s → IsHalf p (halves p).1 s 1
unfolding halves
hi-IsHalf p s e =
    let o : open_bits p ≡ suc s = omega arith in
    let b : width p.is4 - 1 - p.bits ≡ s = omega arith in
    record {
      family = refl;
      length = refl;
      room = e;
      digit = omega arith;
      number = rw (o, b) (half_high_set (p.value / 2 ^ suc s) s);
    }

module _ (p : Prefix) (a : Addr) (short : p.bits < width p.is4) where
  lo-IsHalf' : IsHalf p (halves p).0 (width p.is4 - 1 - p.bits) 0
  lo-IsHalf' = lo-IsHalf p (width p.is4 - 1 - p.bits) (omega arith)

  hi-IsHalf' : IsHalf p (halves p).1 (width p.is4 - 1 - p.bits) 1
  hi-IsHalf' = hi-IsHalf p (width p.is4 - 1 - p.bits) (omega arith)

  in_a_half :
      (b : ℕ)
      → a.value / 2 ^ (width p.is4 - 1 - p.bits) % 2 ≡ b
      → contains p a ≡ true
      → (contains (halves p).0 a || contains (halves p).1 a) ≡ true
  in_a_half zero e h =
      ground
        (arith, Inside→contains (halves p).0 a (in_half lo-IsHalf' a (contains→Inside p a h) e))
  in_a_half (suc zero) e h =
      ground
        (arith, Inside→contains (halves p).1 a (in_half hi-IsHalf' a (contains→Inside p a h) e))
  in_a_half (suc (suc b)) e h = absurd (omega arith)

  -- A prefix that is not a single address contains what its two halves contain.
  pub contains-halves : contains p a ≡ (contains (halves p).0 a || contains (halves p).1 a)
  contains-halves =
      bool_ext (contains p a) (contains (halves p).0 a || contains (halves p).1 a)
        (in_a_half (a.value / 2 ^ (width p.is4 - 1 - p.bits) % 2) refl)
        (λ h. elim (Bool-cases (contains (halves p).0 a)) [
          | inl e ↦ Inside→contains p a (in_whole lo-IsHalf' a (contains→Inside (halves p).0 a e))
          | inr e ↦
              Inside→contains p a
                (in_whole hi-IsHalf' a (contains→Inside (halves p).1 a (ground arith)))
        ])

  -- And nothing lies in both.
  pub halves_disjoint : contains (halves p).0 a ≡ true → contains (halves p).1 a ≡ false
  halves_disjoint h = elim (Bool-cases (contains (halves p).1 a)) [
    | inr e ↦ e
    | inl e ↦ absurd (
        omega (
          arith,
          half_digit lo-IsHalf' a (contains→Inside (halves p).0 a h),
          half_digit hi-IsHalf' a (contains→Inside (halves p).1 a e),
        ))
  ]

-- The halves are masked prefixes of the same family, one bit longer.
pub halves-bits : (p : Prefix) → ((halves p).0.bits ≡ p.bits + 1) × ((halves p).1.bits ≡ p.bits + 1)
unfolding halves
halves-bits p = (refl, refl)

pub halves-is4 : (p : Prefix) → ((halves p).0.is4 ≡ p.is4) × ((halves p).1.is4 ≡ p.is4)
unfolding halves
halves-is4 p = (refl, refl)
