-- ===== src/Base/Double.antt =====
-- The `double` and `long double` of C as an interface: what the sources use of them, with the facts
-- of IEEE 754 and math.h that the theorems rest on. `milli_double` is a value of it.
use Prim.Native.Nat.{ℕ, suc, zero, ◌+◌, ◌*◌, ◌/◌}
use mathlib.Core.Path.{◌≡◌}
use mathlib.Core.Bool.{Bool, true, false}
use native.Mathlib.Omega.{arith}
use sistema_motriz_rs.Base.Int.{ℤ, pos, negsuc, pos_part, neg_part}
use sistema_motriz_rs.Base.Float.{
  Milli, milli, nan, lt_milli, le_milli, is_number, negate, lt_milli_irrefl,
}

-- The conversion of `float` to `double`.
pub record Widening (F D : Type 0) : Type 0 where
  pub widen : F → D

-- `D` is double and `L` long double.
pub record Double (D : Type 0) : Type 1 where
  pub L : Type 0
  pub zero_d : D
  pub finite_d : D → Bool
  -- `<` and `<=`, false where an operand is not a number
  pub lt_d : D → D → Bool
  pub le_d : D → D → Bool
  pub fabs : D → D
  pub copysign : D → D → D
  -- the rounding of `lround`
  pub lround : D → ℤ
  -- conversions
  pub to_long : D → L
  pub of_long : L → D
  pub of_sign : ℤ → L
  pub add_l : L → L → L
  pub sub_l : L → L → L
  pub mul_l : L → L → L
  pub div_l : L → L → L
  pub finite_l : L → Bool
  pub lt_l : L → L → Bool
  pub fabsl : L → L
  pub one_l : L
  pub two_l : L
  pub dbl_max_l : L
  pub dbl_true_min_l : L
  -- 60 / 2π
  pub rpm_per_radps_l : L
  pub lt_d_irrefl : (x : D) → lt_d x x ≡ false
  -- The magnitude of the first argument, for a positive one.
  pub fabs-copysign :
      (m x : D) → finite_d m ≡ true → le_d m zero_d ≡ false → fabs (copysign m x) ≡ m

abbrev sign_of : ℤ → Bool
sign_of (pos n) = true
sign_of (negsuc n) = false

abbrev magnitude : ℤ → ℕ
magnitude (pos n) = n
magnitude (negsuc n) = suc n

abbrev signed : Bool → ℕ → ℤ
signed true n = pos n
signed false n = negate (pos n)

abbrev same : Bool → Bool → Bool
same true b = b
same false true = false
same false false = true

abbrev difference : ℕ → ℕ → ℤ
difference zero b = negate (pos b)
difference (suc a) zero = pos (suc a)
difference (suc a) (suc b) = difference a b

abbrev lift : (ℤ → ℤ) → Milli → Milli
lift f (milli a) = milli (f a)
lift f nan = nan

abbrev lift₂ : (ℤ → ℤ → ℤ) → Milli → Milli → Milli
lift₂ f (milli a) (milli b) = milli (f a b)
lift₂ f (milli a) nan = nan
lift₂ f nan _ = nan

abbrev add_milli : ℤ → ℤ → ℤ
add_milli a b = difference (pos_part a + pos_part b) (neg_part a + neg_part b)

abbrev mul_milli : ℤ → ℤ → ℤ
mul_milli a b = signed (same (sign_of a) (sign_of b)) (magnitude a * magnitude b / 1000)

abbrev quotient : ℕ → ℕ → ℕ
quotient a zero = 0
quotient a (suc b) = a * 1000 / suc b

abbrev div_milli : ℤ → ℤ → ℤ
div_milli a b = signed (same (sign_of a) (sign_of b)) (quotient (magnitude a) (magnitude b))

abbrev fabs_milli : ℤ → ℤ
fabs_milli a = pos (magnitude a)

abbrev copysign_milli : Milli → Milli → Milli
copysign_milli (milli m) (milli x) = milli (signed (sign_of x) (magnitude m))
copysign_milli (milli m) nan = milli (fabs_milli m)
copysign_milli nan _ = nan

abbrev round_milli : Milli → ℤ
round_milli (milli a) = signed (sign_of a) ((magnitude a + 500) / 1000)
round_milli nan = pos 0

pub fabs-copysign_milli :
    (m x : Milli)
    → is_number m ≡ true
    → le_milli m (milli (pos 0)) ≡ false
    → lift fabs_milli (copysign_milli m x) ≡ m
fabs-copysign_milli m x h p = ground arith

instance abbrev pub milli_double : Double Milli
milli_double = record {
  L = Milli;
  zero_d = milli (pos 0);
  finite_d = is_number;
  lt_d = lt_milli;
  le_d = le_milli;
  fabs = lift fabs_milli;
  copysign = copysign_milli;
  lround = round_milli;
  to_long = λ x. x;
  of_long = λ x. x;
  of_sign = λ s. milli (signed (sign_of s) (magnitude s * 1000));
  add_l = lift₂ add_milli;
  sub_l = lift₂ (λ a b. add_milli a (negate b));
  mul_l = lift₂ mul_milli;
  div_l = lift₂ div_milli;
  finite_l = is_number;
  lt_l = lt_milli;
  fabsl = lift fabs_milli;
  one_l = milli (pos 1000);
  two_l = milli (pos 2000);
  dbl_max_l = milli (pos 1000000000000);
  dbl_true_min_l = milli (pos 1);
  rpm_per_radps_l = milli (pos 9549);
  lt_d_irrefl = lt_milli_irrefl;
  fabs-copysign = fabs-copysign_milli;
}

instance abbrev pub milli_widening : Widening Milli Milli
milli_widening = record { widen = λ x. x }
