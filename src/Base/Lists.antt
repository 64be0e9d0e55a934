-- ===== src/Base/Lists.antt =====
-- Lists measured and indexed by native numbers.
use Prim.Native.Nat.{ℕ, zero, suc, ◌+◌, ◌<◌}
use mathlib.Core.Path.{◌≡◌, refl, ap}
use mathlib.Core.Bool.{Bool, true, false, ◌||◌}
use mathlib.Core.List.{List, [], ◌∷◌, ◌++◌}
use mathlib.Core.Option.{Option, none, some}
use native.Mathlib.Omega.{arith}
use sistema_motriz_rs.Base.Tests.{◌==◌}

module _ {ℓ} {A : Type ℓ} where
  abbrev pub length : List A → ℕ
  length [] = 0
  length (_ ∷ xs) = suc (length xs)

  abbrev pub get_elem? : List A → ℕ → Option A
  get_elem? [] _ = none
  get_elem? (x ∷ _) zero = some x
  get_elem? (_ ∷ xs) (suc i) = get_elem? xs i

  abbrev pub get_or : List A → ℕ → A → A
  get_or [] _ d = d
  get_or (x ∷ _) zero _ = x
  get_or (_ ∷ xs) (suc i) d = get_or xs i d

  -- Every element has the property.
  abbrev pub All {κ} : (A → Type κ) → List A → Type κ
  All P [] = Unit
  All P (x ∷ xs) = P x × All P xs

  pub length-append : (xs ys : List A) → length (xs ++ ys) ≡ length xs + length ys
  length-append [] ys = omega arith
  length-append (x ∷ xs) ys = omega (arith, length-append xs ys)

pub All-append {ℓ κ} :
    {A : Type ℓ} (P : A → Type κ) (xs ys : List A) → All P xs → All P ys → All P (xs ++ ys)
All-append P [] ys hx hy = hy
All-append P (x ∷ xs) ys hx hy = (hx.0, All-append P xs ys hx.1 hy)

-- A linear search for a number.
unfoldable pub contains : List ℕ → ℕ → Bool
contains [] a = false
contains (x ∷ xs) a = x == a || contains xs a

pub contains-append_left :
    (xs ys : List ℕ) (a : ℕ) → contains xs a ≡ true → contains (xs ++ ys) a ≡ true
unfolding contains
contains-append_left [] ys a h = ground arith
contains-append_left (x ∷ xs) ys a h = ground (arith, contains-append_left xs ys a)

pub contains-append_self : (xs : List ℕ) (a : ℕ) → contains (xs ++ (a ∷ [])) a ≡ true
unfolding contains
contains-append_self [] a = ground arith
contains-append_self (x ∷ xs) a = ground (arith, contains-append_self xs a)

pub length-eq_zero {ℓ} : {A : Type ℓ} (xs : List A) → length xs ≡ 0 → xs ≡ []
length-eq_zero [] h = refl
length-eq_zero (x ∷ xs) h = absurd (omega (arith, h))

unit_left : (k : ℕ) → 0 + k ≡ k
unit_left k = omega arith

suc_left : (n k : ℕ) → suc n + k ≡ suc (n + k)
suc_left n k = omega arith

module _ {ℓ} {A : Type ℓ} where
  abbrev pub take : ℕ → List A → List A
  take _ [] = []
  take zero (_ ∷ _) = []
  take (suc n) (x ∷ xs) = x ∷ take n xs

  abbrev pub drop : ℕ → List A → List A
  drop zero xs = xs
  drop (suc _) [] = []
  drop (suc n) (_ ∷ xs) = drop n xs

  -- `xs[i] = a`, nothing where the index is out of range.
  abbrev pub set_elem : List A → ℕ → A → List A
  set_elem [] _ _ = []
  set_elem (_ ∷ xs) zero a = a ∷ xs
  set_elem (x ∷ xs) (suc i) a = x ∷ set_elem xs i a

  pub length-set_elem : (xs : List A) (i : ℕ) (a : A) → length (set_elem xs i a) ≡ length xs
  length-set_elem [] i a = refl
  length-set_elem (x ∷ xs) zero a = refl
  length-set_elem (x ∷ xs) (suc i) a = ap suc (length-set_elem xs i a)

  pub take-set_elem :
      (xs : List A) (i : ℕ) (a : A)
      → i < length xs
      → take (suc i) (set_elem xs i a) ≡ take i xs ++ (a ∷ [])
  take-set_elem [] i a h = absurd (omega (arith, h))
  take-set_elem (x ∷ []) zero a h = refl
  take-set_elem (x ∷ y ∷ xs) zero a h = refl
  take-set_elem (x ∷ xs) (suc i) a h = ap (λ ys. x ∷ ys) (take-set_elem xs i a (omega (arith, h)))

  pub take-zero : (xs : List A) → take zero xs ≡ []
  take-zero [] = refl
  take-zero (x ∷ xs) = refl

  pub take-append : (xs ys : List A) → take (length xs) (xs ++ ys) ≡ xs
  take-append [] [] = refl
  take-append [] (y ∷ ys) = refl
  take-append (x ∷ xs) ys = rw (take-append xs ys) refl

  pub get_or_behind :
      (xs ys : List A) (k : ℕ) (d : A) → get_or (xs ++ ys) (length xs + k) d ≡ get_or ys k d
  get_or_behind [] ys k d = rw (unit_left k) refl
  get_or_behind (x ∷ xs) ys k d = rw (suc_left (length xs) k) (get_or_behind xs ys k d)

  -- The last two elements.
  pub split_two :
      (xs : List A) (k : ℕ) (d : A)
      → length xs ≡ k + 2
      → xs ≡ take k xs ++ (get_or xs k d ∷ get_or xs (k + 1) d ∷ [])
  split_two [] k d h = absurd (omega (arith, h))
  split_two (x ∷ []) k d h = absurd (omega (arith, h))
  split_two (x ∷ y ∷ []) zero d h = refl
  split_two (x ∷ y ∷ z ∷ xs) zero d h = absurd (omega (arith, h))
  split_two (x ∷ y ∷ xs) (suc k) d h =
      rw (suc_left k 1) (ap (λ zs. x ∷ zs) (split_two (y ∷ xs) k d (omega (arith, h))))

  pub append_nil : (xs : List A) → xs ++ [] ≡ xs
  append_nil [] = refl
  append_nil (x ∷ xs) = ap (λ ys. x ∷ ys) (append_nil xs)

  pub append_one : (xs : List A) (a : A) (ys : List A) → (xs ++ (a ∷ [])) ++ ys ≡ xs ++ (a ∷ ys)
  append_one [] a ys = refl
  append_one (x ∷ xs) a ys = ap (λ zs. x ∷ zs) (append_one xs a ys)
