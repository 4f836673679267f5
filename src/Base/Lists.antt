-- ===== src/Base/Lists.antt =====
-- Lists measured by native numbers, and Boolean searches over them.
use Prim.Native.Nat.{ℕ, suc, ◌+◌}
use mathlib.Core.Path.{◌≡◌, refl}
use mathlib.Core.Bool.{Bool, true, false, ◌&&◌, ◌||◌}
use mathlib.Core.List.{List, [], ◌∷◌, ◌++◌, Memᴰ}
use native.Mathlib.Omega.{arith}
use mathlib.Core.Logic.{inl, inr}
use riftroute.Base.Tests.{if◌then◌else◌, Bool-cases}

module _ {ℓ} {A : Type ℓ} where
  abbrev pub length : List A → ℕ
  length [] = 0
  length (x ∷ xs) = suc (length xs)

  -- Whether some element passes the test.
  abbrev pub any : (A → Bool) → List A → Bool
  any p [] = false
  any p (x ∷ xs) = p x || any p xs

  abbrev pub all : (A → Bool) → List A → Bool
  all p [] = true
  all p (x ∷ xs) = p x && all p xs

  -- The elements that pass the test, in order: Go's `for … { if p(x) { out = append(out, x) } }`.
  abbrev pub select : (A → Bool) → List A → List A
  select p [] = []
  select p (x ∷ xs) = if p x then x ∷ select p xs else select p xs

  pub any-append : (p : A → Bool) (xs ys : List A) → any p (xs ++ ys) ≡ (any p xs || any p ys)
  any-append p [] ys = refl
  any-append p (x ∷ xs) ys = ground (arith, any-append p xs ys)

  pub length-append : (xs ys : List A) → length (xs ++ ys) ≡ length xs + length ys
  length-append [] ys = omega arith
  length-append (x ∷ xs) ys = omega (arith, length-append xs ys)

-- A predicate on every element.
abbrev pub All {ℓ κ} : {A : Type ℓ} → (A → Type κ) → List A → Type κ
All P [] = Unit
All P (x ∷ xs) = P x × All P xs

pub All-append {ℓ κ} :
    {A : Type ℓ} (P : A → Type κ) (xs ys : List A) → All P xs → All P ys → All P (xs ++ ys)
All-append P [] ys hx hy = hy
All-append P (x ∷ xs) ys hx hy = (hx.0, All-append P xs ys hx.1 hy)

module _ {ℓ} {A : Type ℓ} (p : A → Bool) where
  pub select-append : (xs ys : List A) → select p (xs ++ ys) ≡ select p xs ++ select p ys
  select-append [] ys = refl
  select-append (x ∷ xs) ys = ground (arith, select-append xs ys)

  pub select_none : (xs : List A) → All (λ x. p x ≡ false) xs → select p xs ≡ []
  select_none [] h = refl
  select_none (x ∷ xs) h = rw h.0 (select_none xs h.1)

  pub All-select {κ} : (P : A → Type κ) (xs : List A) → All P xs → All P (select p xs)
  All-select P [] h = tt
  All-select P (x ∷ xs) h = elim (Bool-cases (p x)) [
    | inl e ↦ rw e (h.0, All-select P xs h.1)
    | inr e ↦ rw e (All-select P xs h.1)
  ]

  pub select-All : (xs : List A) → All (λ x. p x ≡ true) (select p xs)
  select-All [] = tt
  select-All (x ∷ xs) = ground (arith, select-All xs)

-- An element that passes the test is among the selected ones.
pub Memᴰ-select {ℓ} :
    {A : Type ℓ} (p : A → Bool) (xs : List A) {x : A}
    → p x ≡ true
    → Memᴰ x xs
    → Memᴰ x (select p xs)
Memᴰ-select p [] h m = elim m [ ]
Memᴰ-select p (y ∷ ys) {x} h (Memᴰ.head e) = rw (← e, h) (Memᴰ.head refl)
Memᴰ-select p (y ∷ ys) {x} h (Memᴰ.tail m) = elim (Bool-cases (p y)) [
  | inl e ↦ rw e (Memᴰ.tail (Memᴰ-select p ys h m))
  | inr e ↦ rw e (Memᴰ-select p ys h m)
]
