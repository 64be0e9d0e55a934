-- ===== src/Base/Bits.antt =====
-- Bit masks: what `&` and `|` do to the lowest digit, and the laws of masks that follow.
use Prim.Native.Nat.{
  ℕ, zero, suc, ◌+◌, ◌*◌, ◌/◌, ◌%◌, ◌≤◌, ◌<◌, min, max, bit_and, bit_or, digits, bit_and-bitwise,
  bit_or-bitwise,
}
use mathlib.Core.Path.{◌≡◌, refl, ap}
use native.Mathlib.Omega.{arith}

-- Spare fuel changes nothing.
module _ (tail : ℕ → ℕ) (digit : ℕ → ℕ → ℕ) where
  digits_spare :
      (x y fuel fuel' : ℕ)
      → x ≤ fuel
      → x ≤ fuel'
      → digits tail digit fuel x y ≡ digits tail digit fuel' x y
  digits_spare zero y zero zero _ _ = refl
  digits_spare zero y zero (suc _) _ _ = refl
  digits_spare zero y (suc _) zero _ _ = refl
  digits_spare zero y (suc _) (suc _) _ _ = refl
  digits_spare (suc x) y zero fuel' h _ = absurd (omega arith)
  digits_spare (suc x) y (suc fuel) zero _ h = absurd (omega arith)
  digits_spare (suc x) y (suc fuel) (suc fuel') h h' =
      omega (arith, digits_spare (suc x / 2) (y / 2) fuel fuel' (omega arith) (omega arith))

-- The lowest digit, and the others.
pub bit_or_split : (a b : ℕ) → bit_or a b ≡ bit_or (a / 2) (b / 2) * 2 + max (a % 2) (b % 2)
bit_or_split zero b = omega (arith, bit_or-bitwise 0 b, bit_or-bitwise 0 (b / 2))
bit_or_split (suc a) b = omega (
  arith,
  bit_or-bitwise (suc a) b,
  bit_or-bitwise (suc a / 2) (b / 2),
  digits_spare (λ y. y) max (suc a / 2) (b / 2) a (suc a / 2) (omega arith) (omega arith),
)

pub bit_and_split : (a b : ℕ) → bit_and a b ≡ bit_and (a / 2) (b / 2) * 2 + min (a % 2) (b % 2)
bit_and_split zero b = omega (arith, bit_and-bitwise 0 b, bit_and-bitwise 0 (b / 2))
bit_and_split (suc a) b = omega (
  arith,
  bit_and-bitwise (suc a) b,
  bit_and-bitwise (suc a / 2) (b / 2),
  digits_spare (λ _. zero) min (suc a / 2) (b / 2) a (suc a / 2) (omega arith) (omega arith),
)

bit_or_zero_below : (n a b : ℕ) → a ≤ n → bit_or a b ≡ 0 → (a ≡ 0) × (b ≡ 0)
bit_or_zero_below n zero b h e = omega (arith, bit_or-bitwise 0 b)
bit_or_zero_below zero (suc a) b h e = absurd (omega arith)
bit_or_zero_below (suc n) (suc a) b h e = omega (
  arith,
  bit_or_split (suc a) b,
  bit_or_zero_below n (suc a / 2) (b / 2) (omega arith) (omega (arith, bit_or_split (suc a) b)),
)

-- A union is empty only if both sides are.
pub bit_or-eq_zero : (a b : ℕ) → bit_or a b ≡ 0 → (a ≡ 0) × (b ≡ 0)
bit_or-eq_zero a b e = bit_or_zero_below a a b (omega arith) e

bit_or_half : (a b : ℕ) → bit_or a b / 2 ≡ bit_or (a / 2) (b / 2)
bit_or_half a b = omega (arith, bit_or_split a b)

bit_and_half : (a b : ℕ) → bit_and a b / 2 ≡ bit_and (a / 2) (b / 2)
bit_and_half a b = omega (arith, bit_and_split a b)

bit_and_within_below : (n a t k : ℕ) → a ≤ n → bit_and a k ≡ 0 → bit_and (bit_and a t) k ≡ 0
bit_and_within_below n zero t k h e = rw (bit_and-bitwise 0 t) (bit_and-bitwise 0 k)
bit_and_within_below zero (suc a) t k h e = absurd (omega arith)
bit_and_within_below (suc n) (suc a) t k h e = omega (
  arith,
  bit_and_split (suc a) k,
  bit_and_split (suc a) t,
  bit_and_split (bit_and (suc a) t) k,
  ap (λ x. bit_and x (k / 2)) (bit_and_half (suc a) t),
  bit_and_within_below n (suc a / 2) (t / 2) (k / 2) (omega arith)
      (omega (arith, bit_and_split (suc a) k)),
)

-- A part of a mask is apart from what the mask is apart from.
pub bit_and-within : (a t k : ℕ) → bit_and a k ≡ 0 → bit_and (bit_and a t) k ≡ 0
bit_and-within a t k e = bit_and_within_below a a t k (omega arith) e

bit_or_apart_below :
    (n a b k : ℕ) → a ≤ n → b ≤ n → bit_and a k ≡ 0 → bit_and b k ≡ 0 → bit_and (bit_or a b) k ≡ 0
bit_or_apart_below zero zero zero k h h' e e' = bit_and-bitwise 0 k
bit_or_apart_below zero (suc a) b k h h' e e' = absurd (omega arith)
bit_or_apart_below zero zero (suc b) k h h' e e' = absurd (omega arith)
bit_or_apart_below (suc n) a b k h h' e e' = omega (
  arith,
  bit_and_split a k,
  bit_and_split b k,
  bit_or_split a b,
  bit_and_split (bit_or a b) k,
  ap (λ x. bit_and x (k / 2)) (bit_or_half a b),
  bit_or_apart_below n (a / 2) (b / 2) (k / 2) (omega arith) (omega arith)
      (omega (arith, bit_and_split a k)) (omega (arith, bit_and_split b k)),
)

-- A union is apart from what both sides are apart from.
pub bit_or-apart : (a b k : ℕ) → bit_and a k ≡ 0 → bit_and b k ≡ 0 → bit_and (bit_or a b) k ≡ 0
bit_or-apart a b k e e' = bit_or_apart_below (a + b) a b k (omega arith) (omega arith) e e'

bit_and_zero_below : (n a : ℕ) → a ≤ n → bit_and a 0 ≡ 0
bit_and_zero_below n zero h = refl
bit_and_zero_below zero (suc a) h = absurd (omega arith)
bit_and_zero_below (suc n) (suc a) h =
    omega (arith, bit_and_split (suc a) 0, bit_and_zero_below n (suc a / 2) (omega arith))

pub bit_and-zero : (a : ℕ) → bit_and a 0 ≡ 0
bit_and-zero a = bit_and_zero_below a a (omega arith)

bit_and_submask_below : (n a e t : ℕ) → a ≤ n → bit_and a e ≡ 0 → bit_and e t ≡ t → bit_and a t ≡ 0
bit_and_submask_below n zero e t h d c = bit_and-bitwise 0 t
bit_and_submask_below zero (suc a) e t h d c = absurd (omega arith)
bit_and_submask_below (suc n) (suc a) e t h d c = omega (
  arith,
  bit_and_split (suc a) e,
  bit_and_split e t,
  bit_and_split (suc a) t,
  bit_and_submask_below n (suc a / 2) (e / 2) (t / 2) (omega arith)
      (omega (arith, bit_and_split (suc a) e)) (omega (arith, bit_and_split e t)),
)

-- What is apart from a mask is apart from a part of it.
pub bit_and-submask : (a e t : ℕ) → bit_and a e ≡ 0 → bit_and e t ≡ t → bit_and a t ≡ 0
bit_and-submask a e t d c = bit_and_submask_below a a e t (omega arith) d c

bit_or_double : (a b : ℕ) → bit_or (a * 2) b ≡ bit_or a (b / 2) * 2 + b % 2
bit_or_double a b = omega (
  arith,
  bit_or_split (a * 2) b,
  ap (λ x. bit_or x (b / 2)) {x = a * 2 / 2} {y = a} (omega arith),
)

bit_or_empty_below : (n b : ℕ) → b ≤ n → bit_or b 0 ≡ b
bit_or_empty_below n zero h = bit_or-bitwise 0 0
bit_or_empty_below zero (suc b) h = absurd (omega arith)
bit_or_empty_below (suc n) (suc b) h =
    omega (arith, bit_or_split (suc b) 0, bit_or_empty_below n (suc b / 2) (omega arith))

-- Apart digits add up.
bit_or_nibbles : (a b : ℕ) → b < 16 → bit_or (a * 2 * 2 * 2 * 2) b ≡ a * 16 + b
bit_or_nibbles a b h = omega (
  arith,
  bit_or_double (a * 2 * 2 * 2) b,
  bit_or_double (a * 2 * 2) (b / 2),
  bit_or_double (a * 2) (b / 2 / 2),
  bit_or_double a (b / 2 / 2 / 2),
  ap (bit_or a) {x = b / 2 / 2 / 2 / 2} {y = 0} (omega arith),
  bit_or_empty_below a a (omega arith),
)

bit_or_nibble_step :
    (a b : ℕ) → bit_or (a * 2 * 2 * 2 * 2) b ≡ bit_or a (b / 2 / 2 / 2 / 2) * 16 + b % 16
bit_or_nibble_step a b = omega (
  arith,
  bit_or_double (a * 2 * 2 * 2) b,
  bit_or_double (a * 2 * 2) (b / 2),
  bit_or_double (a * 2) (b / 2 / 2),
  bit_or_double a (b / 2 / 2 / 2),
)

-- Two bytes side by side.
pub bit_or_bytes : (a b : ℕ) → b < 256 → bit_or (a * 256) b ≡ a * 256 + b
bit_or_bytes a b h = omega (
  arith,
  ap (λ x. bit_or x b) {x = a * 256} {y = a * 2 * 2 * 2 * 2 * 2 * 2 * 2 * 2} (omega arith),
  bit_or_nibble_step (a * 2 * 2 * 2 * 2) b,
  bit_or_nibbles a (b / 2 / 2 / 2 / 2) (omega arith),
)
