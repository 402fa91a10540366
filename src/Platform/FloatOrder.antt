-- ===== src/Platform/FloatOrder.antt =====
-- What is used of the order of float64: rounding is monotone, integers up to 2^53 and their sums and
-- differences are exact, and a conversion to an integer rounds towards zero.
use optipod.Prelude.{◌≡◌, ℕ, suc, ◌+◌, ◌-◌, ◌^◌, ◌≤◌, pos, ◌≤ℤ◌}
use optipod.Platform.{Platform}

-- `le x y` says x <= y, which is false where one of them is NaN.
pub record FloatOrder (P : Platform) : Type 1 where
  pub le : P.Float → P.Float → Type 0
  pub trans : {x y z : P.Float} → le x y → le y z → le x z
  pub of_mono : (a b : ℕ) → a ≤ b → le (P.of_int64 (pos a)) (P.of_int64 (pos b))
  pub to_of : (a : ℕ) → a ≤ 2 ^ 53 → P.to_int64 (P.of_int64 (pos a)) ≡ pos a
  pub to_mono :
      (x y : P.Float)
      → le (P.of_int64 (pos 0)) x
      → le x y
      → le y (P.of_int64 (pos (2 ^ 53)))
      → P.to_int64 x ≤ℤ P.to_int64 y
  -- The integer part of a number from 0 to 2^53.
  pub to_part :
      (x : P.Float)
      → le (P.of_int64 (pos 0)) x
      → le x (P.of_int64 (pos (2 ^ 53)))
      → (k : ℕ) × (P.to_int64 x ≡ pos k)
        × le (P.of_int64 (pos k)) x
        × le x (P.of_int64 (pos (suc k)))
  pub add_mono :
      (a : ℕ) (x y : P.Float)
      → le x y
      → le (P.add (P.of_int64 (pos a)) x) (P.add (P.of_int64 (pos a)) y)
  pub add_of :
      (a b : ℕ)
      → a + b ≤ 2 ^ 53
      → P.add (P.of_int64 (pos a)) (P.of_int64 (pos b)) ≡ P.of_int64 (pos (a + b))
  pub sub_mono :
      (a : ℕ) (x y : P.Float)
      → le x y
      → le (P.sub x (P.of_int64 (pos a))) (P.sub y (P.of_int64 (pos a)))
  pub sub_of :
      (a b : ℕ)
      → b ≤ a
      → a ≤ 2 ^ 53
      → P.sub (P.of_int64 (pos a)) (P.of_int64 (pos b)) ≡ P.of_int64 (pos (a - b))
  -- Products of a number from 0 to 1 with an integer.
  pub mul_mono :
      (a : ℕ) (x y : P.Float)
      → a ≤ 2 ^ 53
      → le (P.of_int64 (pos 0)) x
      → le x y
      → le y (P.of_int64 (pos 1))
      → le (P.mul x (P.of_int64 (pos a))) (P.mul y (P.of_int64 (pos a)))
  pub mul_zero :
      (a : ℕ) → a ≤ 2 ^ 53 → P.mul (P.of_int64 (pos 0)) (P.of_int64 (pos a)) ≡ P.of_int64 (pos 0)
  pub mul_one :
      (a : ℕ) → a ≤ 2 ^ 53 → P.mul (P.of_int64 (pos 1)) (P.of_int64 (pos a)) ≡ P.of_int64 (pos a)
  -- Hundredths.
  pub div_mono :
      (p q : ℕ)
      → p ≤ q
      → q ≤ 100
      → le
          (P.div (P.of_int64 (pos p)) (P.decimal 100 0))
          (P.div (P.of_int64 (pos q)) (P.decimal 100 0))
  pub div_zero : P.div (P.of_int64 (pos 0)) (P.decimal 100 0) ≡ P.of_int64 (pos 0)
  pub div_hundred : P.div (P.of_int64 (pos 100)) (P.decimal 100 0) ≡ P.of_int64 (pos 1)

-- What is used of products and sums of numbers from 0 to 1: rounding keeps to the bounds.
pub record FractionLaws {P : Platform} (fo : FloatOrder P) : Type 0 where
  pub tenth :
      fo.le (P.of_int64 (pos 0)) (P.decimal 1 1) × fo.le (P.decimal 1 1) (P.of_int64 (pos 1))
  pub half : fo.le (P.of_int64 (pos 0)) (P.decimal 5 1)
  pub mul_part :
      (x y : P.Float)
      → fo.le (P.of_int64 (pos 0)) x
      → fo.le (P.of_int64 (pos 0)) y
      → fo.le y (P.of_int64 (pos 1))
      → fo.le (P.of_int64 (pos 0)) (P.mul x y) × fo.le (P.mul x y) x
  pub add_half :
      (x : P.Float)
      → fo.le (P.of_int64 (pos 0)) x
      → fo.le x (P.decimal 5 1)
      → fo.le (P.of_int64 (pos 0)) (P.add (P.decimal 5 1) x)
        × fo.le (P.add (P.decimal 5 1) x) (P.of_int64 (pos 1))
