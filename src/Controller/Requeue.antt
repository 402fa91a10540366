-- ===== src/Controller/Requeue.antt =====
-- `calculateRequeueInterval`: when a policy is reconciled again.
use optipod.Prelude.{
  ◌≡◌, refl, ℕ, ◌+◌, ◌*◌, ◌^◌, ◌≤◌, ℤ, pos, ◌+ℤ◌, ◌*ℤ◌, ◌≤ℤ◌, int64, eqb_ℤ, str_eq, arith,
  if◌then◌else◌,
}
use optipod.Platform.{Platform}
use optipod.Platform.FloatOrder.{FloatOrder, FractionLaws}
use optipod.Api.Types.{OptimizationPolicy, Duration, mode_disabled, mode_recommend}

-- Five minutes.
abbrev pub default_interval : Duration
default_interval = pos (300 * 10 ^ 9)

module _ (P : Platform) where
  open P use {Float, decimal, of_int64, to_int64, mul, add}

  -- The random number is that of `rng.Float64()`.
  abbrev pub jitter : Duration → Float → Duration
  jitter base random =
      to_int64
        (mul (mul (of_int64 base) (decimal 1 1)) (add (decimal 5 1) (mul (decimal 5 1) random)))

summed : (n j : ℕ) → n ≤ 2 ^ 60 → j ≤ n → int64 (pos n +ℤ pos j) ≡ pos (n + j)
unfolding ◌+ℤ◌ int64
summed n j h l = ground arith

doubled : (n : ℕ) → n ≤ 2 ^ 60 → int64 (pos n *ℤ pos 2) ≡ pos (n * 2)
unfolding ◌*ℤ◌ int64
doubled n h = ground arith

tripled : (n : ℕ) → n ≤ 2 ^ 60 → int64 (pos n *ℤ pos 3) ≡ pos (n * 3)
unfolding ◌*ℤ◌ int64
tripled n h = ground arith

quadrupled : (n : ℕ) → n ≤ 2 ^ 60 → int64 (pos n *ℤ pos 4) ≡ pos (n * 4)
unfolding ◌*ℤ◌ int64
quadrupled n h = ground arith

module _ {P : Platform} where
  open P use {Float}

  -- The interval of the policy, or the default.
  abbrev pub base_interval : OptimizationPolicy P → Duration
  base_interval p =
      if eqb_ℤ p.spec.reconciliation_interval (pos 0)
      then default_interval
      else p.spec.reconciliation_interval

  unfoldable pub calculate_requeue_interval : OptimizationPolicy P → ℤ → ℤ → Float → Duration
  calculate_requeue_interval p discovered processed random =
      let base = base_interval p in
      if str_eq p.spec.mode mode_disabled
      then int64 (base *ℤ pos 4)
      else if str_eq p.spec.mode mode_recommend
      then int64 (base *ℤ pos 2)
      else if eqb_ℤ discovered (pos 0)
      then int64 (base *ℤ pos 3)
      else if eqb_ℤ processed (pos 0)
      then int64 (base *ℤ pos 2)
      else int64 (base +ℤ jitter P base random)

  bounded_by :
      (p : OptimizationPolicy P) (discovered processed : ℤ) (random : Float) (n j : ℕ)
      → base_interval p ≡ pos n
      → n ≤ 2 ^ 60
      → jitter P (pos n) random ≡ pos j
      → j ≤ n
      → (pos n ≤ℤ calculate_requeue_interval p discovered processed random)
        × (calculate_requeue_interval p discovered processed random ≤ℤ pos (n * 4))
  unfolding calculate_requeue_interval
  bounded_by p discovered processed random n j e h q l =
      ground (arith, doubled n, tripled n, quadrupled n, summed n j)

  -- The interval that a policy asks for: its own, or five minutes where it has none.
  pub data IsInterval (p : OptimizationPolicy P) : ℕ → Type 0 where
    given : (n : ℕ) → 1 ≤ n → p.spec.reconciliation_interval ≡ pos n → IsInterval p n
    five_minutes : p.spec.reconciliation_interval ≡ pos 0 → IsInterval p 300000000000

  base_interval_lem : (p : OptimizationPolicy P) (n : ℕ) → IsInterval p n → base_interval p ≡ pos n
  base_interval_lem p n (given m h e) = ground arith
  base_interval_lem p n (five_minutes e) = rw (e, base_interval) refl

  module _ (fo : FloatOrder P) (fractions : FractionLaws fo) where
    open P use {of_int64, decimal, mul, to_int64}
    open fo use {le}

    -- A number from 0 to 1.
    abbrev pub IsFraction : Float → Type 0
    IsFraction x = le (of_int64 (pos 0)) x × le x (of_int64 (pos 1))

    jitter_within :
        (n : ℕ) (random : Float)
        → n ≤ 2 ^ 53
        → IsFraction random
        → (j : ℕ) × (jitter P (pos n) random ≡ pos j) × (j ≤ n)
    jitter_within n random small r =
        let base_low = fo.of_mono 0 n (omega arith) in
        let tenth =
          fractions.mul_part (of_int64 (pos n)) (decimal 1 1) base_low fractions.tenth.0
            fractions.tenth.1 in
        let scaled = fractions.mul_part (decimal 5 1) random fractions.half r.0 r.1 in
        let part = fractions.add_half (mul (decimal 5 1) random) scaled.0 scaled.1 in
        let (low, high) = fractions.mul_part _ _ tenth.0 part.0 part.1 in
        let at_most = fo.trans high tenth.1 in
        let bounded = fo.of_mono n (2 ^ 53) small in
        let (j, e, above, below) = fo.to_part _ low (fo.trans at_most bounded) in
        let whole = fo.to_mono _ (of_int64 (pos n)) low at_most bounded in
        let j_le : pos j ≤ℤ pos n = rw (e, fo.to_of n small) at whole in (j, e, omega arith)

    -- With an interval of up to 2^53 nanoseconds (104 days), the policy is reconciled again after at
    -- least one interval and at most four, whatever its mode, the counts of workloads and the random
    -- number from 0 to 1 are.
    pub requeue_within :
        (p : OptimizationPolicy P) (discovered processed : ℤ) (random : Float) (n : ℕ)
        → IsInterval p n
        → n ≤ 2 ^ 53
        → IsFraction random
        → (pos n ≤ℤ calculate_requeue_interval p discovered processed random)
          × (calculate_requeue_interval p discovered processed random ≤ℤ pos (n * 4))
    unfolding calculate_requeue_interval
    requeue_within p discovered processed random n i h r =
        let (j, e, l) = jitter_within n random h r in
        let is = base_interval_lem p n i in
        bounded_by p discovered processed random n j is (omega arith) e l
