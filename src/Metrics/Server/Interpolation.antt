-- ===== src/Metrics/Server/Interpolation.antt =====
-- The rank of a percentile, and the value between two samples at a rank.
use optipod.Prelude.{◌≡◌, ℕ, suc, ◌+◌, ◌-◌, ◌^◌, ◌≤◌, pos, ◌≤ℤ◌, arith}
use optipod.Platform.{Platform}
use optipod.Platform.FloatOrder.{FloatOrder}

module _ (P : Platform) where
  open P use {Float, of_int64, to_int64, decimal, add, sub, mul, div}

  abbrev pub rank : ℕ → ℕ → Float
  rank p last = mul (div (of_int64 (pos p)) (decimal 100 0)) (of_int64 (pos last))

  -- Between `a` and `b`, at the part of `r` beyond `k`.
  abbrev pub blend : Float → ℕ → ℕ → ℕ → Float
  blend r k a b =
      add (of_int64 (pos a))
        (mul (sub r (of_int64 (pos k))) (sub (of_int64 (pos b)) (of_int64 (pos a))))

module _ {P : Platform} (fo : FloatOrder P) where
  open P use {Float, of_int64, to_int64, decimal, sub, div}
  open fo use {le}

  -- A number from 0 to 1.
  abbrev IsPart : Float → Type 0
  IsPart x = le (of_int64 (pos 0)) x × le x (of_int64 (pos 1))

  hundredths-IsPart : (p : ℕ) → p ≤ 100 → IsPart (div (of_int64 (pos p)) (decimal 100 0))
  hundredths-IsPart p h = (
    rw fo.div_zero at (fo.div_mono 0 p (omega arith) h),
    rw fo.div_hundred at (fo.div_mono p 100 h (omega arith)),
  )

  pub rank_mono :
      (p q last : ℕ) → p ≤ q → q ≤ 100 → last ≤ 2 ^ 53 → le (rank P p last) (rank P q last)
  rank_mono p q last h k l =
      fo.mul_mono last _ _ l (hundredths-IsPart p (omega arith)).0 (fo.div_mono p q h k)
        (hundredths-IsPart q k).1

  pub rank_positive : (p last : ℕ) → p ≤ 100 → last ≤ 2 ^ 53 → le (of_int64 (pos 0)) (rank P p last)
  rank_positive p last h l =
      let part = hundredths-IsPart p h in
      let zero_le =
        fo.mul_mono last (of_int64 (pos 0)) _ l (fo.of_mono 0 0 (omega arith)) part.0 part.1 in
      rw (fo.mul_zero last l) at zero_le

  pub rank_bounded :
      (p last : ℕ) → p ≤ 100 → last ≤ 2 ^ 53 → le (rank P p last) (of_int64 (pos last))
  rank_bounded p last h l =
      let part = hundredths-IsPart p h in
      let le_one =
        fo.mul_mono last _ (of_int64 (pos 1)) l part.0 part.1 (fo.of_mono 1 1 (omega arith)) in
      rw (fo.mul_one last l) at le_one

  -- `r` lies in the cell from `k` to `k + 1`.
  pub record IsInCell (r : Float) (k : ℕ) : Type 0 where
    pub above : le (of_int64 (pos k)) r
    pub below : le r (of_int64 (pos (suc k)))
    pub small : suc k ≤ 2 ^ 53

  fraction-IsPart : (r : Float) (k : ℕ) → IsInCell r k → IsPart (sub r (of_int64 (pos k)))
  fraction-IsPart r k c =
      let one : suc k - k ≡ 1 = omega arith in
      let none : k - k ≡ 0 = omega arith in
      let s = c.small in
      (
        rw (fo.sub_of k k (omega arith) (omega arith), none) at (fo.sub_mono k _ _ c.above),
        rw (fo.sub_of (suc k) k (omega arith) s, one) at (fo.sub_mono k _ _ c.below),
      )

  module _ (a b : ℕ) (a_le_b : a ≤ b) (small : b ≤ 2 ^ 53) where
    pub blend_mono :
        (r s : Float) (k : ℕ)
        → IsInCell r k
        → IsInCell s k
        → le r s
        → le (blend P r k a b) (blend P s k a b)
    blend_mono r s k c d h =
        rw (fo.sub_of b a a_le_b small, blend)
          (fo.add_mono a _ _ (
            fo.mul_mono (b - a) _ _ (omega arith) (fraction-IsPart r k c).0 (fo.sub_mono k _ _ h)
              (fraction-IsPart s k d).1))

    pub blend_above : (r : Float) (k : ℕ) → IsInCell r k → le (of_int64 (pos a)) (blend P r k a b)
    blend_above r k c =
        let part = fraction-IsPart r k c in
        let grown = fo.add_mono a _ _ (
          fo.mul_mono (b - a) (of_int64 (pos 0)) _ (omega arith) (fo.of_mono 0 0 (omega arith))
            part.0 part.1) in
        let same : a + 0 ≡ a = omega arith in
        rw (fo.sub_of b a a_le_b small, blend)
          (rw (fo.mul_zero (b - a) (omega arith), fo.add_of a 0 (omega arith), same) at grown)

    pub blend_below : (r : Float) (k : ℕ) → IsInCell r k → le (blend P r k a b) (of_int64 (pos b))
    blend_below r k c =
        let part = fraction-IsPart r k c in
        let grown = fo.add_mono a _ _ (
          fo.mul_mono (b - a) _ (of_int64 (pos 1)) (omega arith) part.0 part.1
            (fo.of_mono 1 1 (omega arith))) in
        let same : a + (b - a) ≡ b = omega arith in
        rw (fo.sub_of b a a_le_b small, blend)
          (rw (fo.mul_one (b - a) (omega arith), fo.add_of a (b - a) (omega arith), same) at grown)

    pub to_between :
        (x : Float)
        → le (of_int64 (pos a)) x
        → le x (of_int64 (pos b))
        → (pos a ≤ℤ to_int64 x) × (to_int64 x ≤ℤ pos b)
    to_between x h k = (
      rw (fo.to_of a (omega arith)) at
          (fo.to_mono _ x (fo.of_mono 0 a (omega arith)) h (fo.trans k (fo.of_mono b _ small))),
      rw (fo.to_of b small) at
          (fo.to_mono x _ (fo.trans (fo.of_mono 0 a (omega arith)) h) k (fo.of_mono b _ small)),
    )
