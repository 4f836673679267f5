-- ===== src/Netip.antt =====
-- The part of Go's net/netip that the routing engine computes with: addresses, prefixes and the
-- tests on them. Text syntax is elsewhere (`Netip/Syntax.antt`).
pub mod Blocks
pub mod Siblings
pub mod Halves
pub mod Syntax
use text.Mathlib.Text.{◌==◌ as str_eq}
use Prim.Native.String.{String}
use riftroute.Base.{
  ℕ, ◌+◌, ◌-◌, ◌*◌, ◌/◌, ◌^◌, ltb, leb, ◌==◌, bool_eq, if◌then◌else◌, Bool, true, false, not, ◌&&◌,
  ◌||◌,
}

-- A valid address: its family, its value as a big-endian number, and its IPv6 zone ("" for none).
-- An IPv4-mapped IPv6 address has `is4 = false`, as Is4 answers.
pub record Addr : Type 0 where
  pub is4 : Bool
  pub value : ℕ
  pub zone : String

-- A prefix holds no zone (PrefixFrom strips it). One whose `bits` exceed its family's length stands
-- for the invalid prefix.
pub record Prefix : Type 0 where
  pub is4 : Bool
  pub value : ℕ
  pub bits : ℕ

-- BitLen.
abbrev pub width : Bool → ℕ
width true = 32
width false = 128

-- Prefix.Addr.
abbrev pub addr : Prefix → Addr
addr p = record { is4 = p.is4; value = p.value; zone = "" }

-- PrefixFrom.
abbrev pub prefix_from : Addr → ℕ → Prefix
prefix_from a bits = record { is4 = a.is4; value = a.value; bits = bits }

-- Go's `==` on addresses.
unfoldable pub addr_eq : Addr → Addr → Bool
addr_eq a b = bool_eq a.is4 b.is4 && (a.value == b.value && str_eq a.zone b.zone)

-- Go's `==` on prefixes, which the engine also uses as map keys.
unfoldable pub prefix_eq : Prefix → Prefix → Bool
prefix_eq p q = bool_eq p.is4 q.is4 && (p.value == q.value && p.bits == q.bits)

-- How many low bits of an address the prefix leaves open.
abbrev pub open_bits : Prefix → ℕ
open_bits p = width p.is4 - p.bits

abbrev pub is_valid : Prefix → Bool
is_valid p = leb p.bits (width p.is4)

unfoldable pub masked : Prefix → Prefix
masked p = record p { value = p.value / 2 ^ open_bits p * 2 ^ open_bits p }

-- Prefix.Contains: never across families, nor for an address with a zone.
unfoldable pub contains : Prefix → Addr → Bool
contains p ip =
    is_valid p
    && (str_eq ip.zone ""
        && (bool_eq p.is4 ip.is4 && ip.value / 2 ^ open_bits p == p.value / 2 ^ open_bits p))

-- Prefix.Overlaps: the two agree in the shorter one's bits.
unfoldable pub overlaps : Prefix → Prefix → Bool
overlaps p o =
    is_valid p
    && (is_valid o
        && (bool_eq p.is4 o.is4
            && (let s = (if ltb p.bits o.bits then open_bits p else open_bits o) in
                p.value / 2 ^ s == o.value / 2 ^ s)))
