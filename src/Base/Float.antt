-- ===== src/Base/Float.antt =====
-- The `float` of C as an interface: what the sources use of it, with the facts of IEEE 754 that the
-- theorems rest on. `Milli` is a value of the interface, for concrete runs.
use Prim.Native.Nat.{suc, zero}
use mathlib.Core.Path.{◌≡◌, refl}
use mathlib.Core.Bool.{Bool, true, false}
use native.Mathlib.Omega.{arith}
use sistema_motriz_rs.Base.Int.{ℤ, pos, negsuc, ltb_ℤ, leb_ℤ}

pub record Float32 (F : Type 0) : Type 0 where
  pub zero_f : F
  pub neg : F → F
  -- `<` and `<=`, false where an operand is not a number
  pub lt : F → F → Bool
  pub le : F → F → Bool
  -- `isfinite` of math.h
  pub is_finite : F → Bool
  pub zero-is_finite : is_finite zero_f ≡ true
  pub lt_irrefl : (x : F) → lt x x ≡ false
  pub le_of_lt : (x y : F) → lt x y ≡ true → le x y ≡ true
  pub lt_of_not_le :
      (x y : F) → is_finite x ≡ true → is_finite y ≡ true → le x y ≡ false → lt y x ≡ true

-- Thousandths, with one value that is no number.
pub data Milli : Type 0 where
  milli : ℤ → Milli
  nan : Milli

abbrev pub negate : ℤ → ℤ
negate (pos zero) = pos 0
negate (pos (suc n)) = negsuc n
negate (negsuc n) = pos (suc n)

abbrev pub neg_milli : Milli → Milli
neg_milli (milli a) = milli (negate a)
neg_milli nan = nan

abbrev pub lt_milli : Milli → Milli → Bool
lt_milli (milli a) (milli b) = ltb_ℤ a b
lt_milli (milli a) nan = false
lt_milli nan _ = false

abbrev pub le_milli : Milli → Milli → Bool
le_milli (milli a) (milli b) = leb_ℤ a b
le_milli (milli a) nan = false
le_milli nan _ = false

abbrev pub is_number : Milli → Bool
is_number (milli a) = true
is_number nan = false

pub lt_milli_irrefl : (x : Milli) → lt_milli x x ≡ false
lt_milli_irrefl x = ground arith

pub le_milli_of_lt : (x y : Milli) → lt_milli x y ≡ true → le_milli x y ≡ true
le_milli_of_lt x y h = ground arith

pub lt_milli_of_not_le :
    (x y : Milli)
    → is_number x ≡ true
    → is_number y ≡ true
    → le_milli x y ≡ false
    → lt_milli y x ≡ true
lt_milli_of_not_le x y hx hy h = ground arith

instance abbrev pub milli_float : Float32 Milli
milli_float = record {
  zero_f = milli (pos 0);
  neg = neg_milli;
  lt = lt_milli;
  le = le_milli;
  is_finite = is_number;
  zero-is_finite = refl;
  lt_irrefl = lt_milli_irrefl;
  le_of_lt = le_milli_of_lt;
  lt_of_not_le = lt_milli_of_not_le;
}
