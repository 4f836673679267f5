-- ===== src/Base/Bits.antt =====
-- Setting one bit of a number whose lower bits are clear adds that power of two.
use Prim.Native.Nat.{
  ℕ, zero, suc, ◌+◌, ◌*◌, ◌/◌, ◌%◌, ◌^◌, ◌≤◌, max, bit_or, digits, bit_or-bitwise,
}
use mathlib.Core.Path.{◌≡◌, refl, ap}
use native.Mathlib.Nat.{pow-suc, mul_assoc}
use native.Mathlib.Omega.{arith}

-- The digit recursion that `bit_or` stands for.
abbrev or_digits : ℕ → ℕ → ℕ → ℕ
or_digits n a b = digits (λ b. b) max n a b

or_digits_fuel : (n m a b : ℕ) → a ≤ n → a ≤ m → or_digits n a b ≡ or_digits m a b
or_digits_fuel zero zero a b p q = refl
or_digits_fuel zero (suc m) zero b p q = refl
or_digits_fuel zero (suc m) (suc a) b p q = absurd (omega arith)
or_digits_fuel (suc n) zero zero b p q = refl
or_digits_fuel (suc n) zero (suc a) b p q = absurd (omega arith)
or_digits_fuel (suc n) (suc m) zero b p q = refl
or_digits_fuel (suc n) (suc m) (suc a) b p q =
    omega (arith, or_digits_fuel n m (suc a / 2) (b / 2) (omega arith) (omega arith))

zero-bit_or : (b : ℕ) → bit_or 0 b ≡ b
zero-bit_or b = bit_or-bitwise 0 b

bit_or_step : (a b : ℕ) → bit_or a b ≡ bit_or (a / 2) (b / 2) * 2 + max (a % 2) (b % 2)
bit_or_step zero b = omega (arith, zero-bit_or b, zero-bit_or (b / 2))
bit_or_step (suc a) b = omega (
  arith,
  bit_or-bitwise (suc a) b,
  bit_or-bitwise (suc a / 2) (b / 2),
  or_digits_fuel a (suc a / 2) (suc a / 2) (b / 2) (omega arith) (omega arith),
)

bit_or-zero_fuel : (n a : ℕ) → a ≤ n → bit_or a 0 ≡ a
bit_or-zero_fuel n zero h = refl
bit_or-zero_fuel zero (suc a) h = absurd (omega arith)
bit_or-zero_fuel (suc n) (suc a) h =
    omega (arith, bit_or_step (suc a) 0, bit_or-zero_fuel n (suc a / 2) (omega arith))

-- The lowest digit of a union with an even number.
bit_or_even : (x y : ℕ) → bit_or (x * 2) y ≡ bit_or x (y / 2) * 2 + y % 2
bit_or_even x y =
    let half : x * 2 / 2 ≡ x = omega arith in
    omega (arith, bit_or_step (x * 2) y, ap (λ (h : ℕ). bit_or h (y / 2)) half)

bit_or_one : (x : ℕ) → bit_or (x * 2) 1 ≡ x * 2 + 1
bit_or_one x = omega (
  arith,
  bit_or_even x 1,
  ap (λ (h : ℕ). bit_or x h) (let e : 1 / 2 ≡ 0 = refl in e),
  bit_or-zero_fuel x x (omega arith),
)

bit_or_doubles : (x y : ℕ) → bit_or (x * 2) (y * 2) ≡ bit_or x y * 2
bit_or_doubles x y =
    let half : y * 2 / 2 ≡ y = omega arith in
    omega (arith, bit_or_even x (y * 2), ap (bit_or x) half)

pub bit_or-pow : (c j : ℕ) → bit_or (c * 2 ^ suc j) (2 ^ j) ≡ c * 2 ^ suc j + 2 ^ j
bit_or-pow c zero = bit_or_one c
bit_or-pow c (suc j) =
    rw (pow-suc 2 (suc j), ← mul_assoc c (2 ^ suc j) 2)
      (omega (
        arith,
        pow-suc 2 j,
        bit_or_doubles (c * 2 ^ suc j) (2 ^ j),
        bit_or-pow c j,
        ap (bit_or (c * 2 ^ suc j * 2)) (pow-suc 2 j),
      ))
