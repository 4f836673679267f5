-- ===== src/Base/Pow.antt =====
-- Division by powers of two: what a prefix comparison reads of an address.
use Prim.Native.Nat.{ℕ, zero, suc, ◌+◌, ◌-◌, ◌*◌, ◌/◌, ◌%◌, ◌^◌, ◌≤◌, ◌<◌}
use mathlib.Core.Path.{◌≡◌, sym, ap}
use native.Mathlib.Nat.{div-div-eq-div-mul, pow-suc, one-le-pow}
use native.Mathlib.Omega.{arith}

pub pow_pos : (s : ℕ) → 0 < 2 ^ s
pow_pos s = one-le-pow s 2 (omega arith)

pub div-pow-suc : (a s : ℕ) → a / 2 ^ suc s ≡ a / 2 ^ s / 2
div-pow-suc a s = rw pow-suc (sym (div-div-eq-div-mul a (2 ^ s) 2))

-- Addresses that agree above bit s agree above every higher bit.
pub div-pow_mono : (a b s k : ℕ) → a / 2 ^ s ≡ b / 2 ^ s → a / 2 ^ (k + s) ≡ b / 2 ^ (k + s)
div-pow_mono a b s zero h = rw Prim.Native.Nat.add.zero h
div-pow_mono a b s (suc k) h = rw Prim.Native.Nat.add.suc (
    rw (div-pow-suc a (k + s), div-pow-suc b (k + s))
      (ap (λ (x : ℕ). x / 2) (div-pow_mono a b s k h)))
