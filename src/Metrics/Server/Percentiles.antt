-- ===== src/Metrics/Server/Percentiles.antt =====
-- The percentiles of the samples are in their order, and among the samples.
use mathlib.Core.List.Perm
use mathlib.Core.List.{length as unary_length}
use mathlib.Core.Nat.{ℕ as Unary}
use optipod.Prelude.{
  ◌≡◌, ◌∙◌, refl, ap, sym, ℕ, zero, suc, ◌^◌, ◌≤◌, ℤ, pos, ◌≤ℤ◌, ltb_ℤ, times_mono, Bool, true,
  false, some, List, [], ◌∷◌, length, Mem, Perm, Result, ok, arith,
}
use optipod.Platform.{Platform, decimal_si, binary_si}
use optipod.Platform.Laws.{SortLaws, QuantityLaws, IsSortedBy, IsOrdering}
use optipod.Platform.FloatOrder.{FloatOrder}
use optipod.Metrics.{ResourceMetrics}
use optipod.Metrics.Server.{MetricsError, percentile, quantity_of, compute_percentiles}
use optipod.Metrics.Server.Interpolation.{rank, rank_mono, rank_positive, rank_bounded}
use optipod.Metrics.Server.Cells.{IsSample, percentile-Cell, Cell_mono}
use optipod.Metrics.Server.Extremes.{IsAmong, IsAmong-perm, percentile-IsAmong}

ltb-IsOrdering : IsOrdering ltb_ℤ
ltb-IsOrdering = record {
  irrefl = λ a. ground arith;
  trans = λ a b c h k. ground arith;
  false_trans = λ a b c h k. ground arith;
}

-- The library's length, which stands on unary numbers.
native : Unary → ℕ
native Unary.zero = zero
native (Unary.suc n) = suc (native n)

native-length : (l : List ℤ) → native (unary_length l) ≡ length l
unfolding native
native-length [] = refl
native-length (x ∷ xs) = ap suc (native-length xs)

Perm-length : (l m : List ℤ) → Perm l m → length l ≡ length m
Perm-length l m p = sym (native-length l) ∙ ap native (Perm.length-eq p) ∙ native-length m

module _ {P : Platform} (fo : FloatOrder P) where
  open P use {of_int64, to_int64}

  -- Two percentiles of sorted samples are there, and in the order of their numbers.
  abbrev AreInOrder : List ℤ → ℕ → ℕ → Type 0
  AreInOrder l p q =
      (v w : ℤ) × (percentile P l p ≡ some v) × (percentile P l q ≡ some w) × (v ≤ℤ w)

  percentile_mono :
      (l : List ℤ) (p q : ℕ)
      → ((z : ℤ) → Mem z l → IsSample z)
      → IsSortedBy ltb_ℤ l
      → length l ≤ 2 ^ 53
      → p ≤ q
      → q ≤ 100
      → AreInOrder l p q
  unfolding percentile
  percentile_mono [] p q samples order few h k = (pos 0, pos 0, refl, refl, omega arith)
  percentile_mono (x ∷ []) p q samples order few h k = (x, x, refl, refl, omega arith)
  percentile_mono (x ∷ (y ∷ rest)) p q samples order few h k =
      let last : ℕ = suc (length rest) in
      let (v, e, c) = percentile-Cell fo x y rest samples order (omega arith) p (omega arith) in
      let (w, f, d) = percentile-Cell fo x y rest samples order (omega arith) q k in
      let le_rank = rank_mono fo p q last h k (omega arith) in
      let low = rank_positive fo p last (omega arith) (omega arith) in
      let high = rank_bounded fo q last k (omega arith) in
      let to_le =
        fo.to_mono (rank P p last) (rank P q last) low le_rank
          (fo.trans high (fo.of_mono last (2 ^ 53) (omega arith))) in
      (v, w, e, f, Cell_mono fo x y rest samples order (omega arith) _ _ v w le_rank to_le c d)

module _ {P : Platform} (sorts : SortLaws P) (fo : FloatOrder P) (amounts : QuantityLaws P) where
  open P use {Quantity}
  open amounts use {nanos}

  quantity_of_mono :
      (is_millicore : Bool) (v w : ℤ)
      → v ≤ℤ w
      → nanos (quantity_of P is_millicore v) ≤ℤ nanos (quantity_of P is_millicore w)
  quantity_of_mono true v w h =
      rw
        (
          amounts.nanos-new_milli_quantity v decimal_si,
          amounts.nanos-new_milli_quantity w decimal_si,
        )
        (times_mono v w (10 ^ 6) h)
  quantity_of_mono false v w h =
      rw (amounts.nanos-new_quantity v binary_si, amounts.nanos-new_quantity w binary_si)
        (times_mono v w (10 ^ 9) h)

  -- The smallest percentile is at least the amount of some sample, and the largest at most that of
  -- some sample.
  pub record IsWithin (samples : List ℤ) (is_millicore : Bool) (m : ResourceMetrics P)
      : Type 0 where
    pub low : ℤ
    pub high : ℤ
    pub low_mem : Mem low samples
    pub high_mem : Mem high samples
    pub low_p50 : nanos (quantity_of P is_millicore low) ≤ℤ nanos m.p50
    pub p99_high : nanos m.p99 ≤ℤ nanos (quantity_of P is_millicore high)

  -- The percentiles are there, in the order of their numbers, and among the samples if there are any.
  pub record IsAscending (samples : List ℤ) (is_millicore : Bool)
      (r : Result MetricsError (ResourceMetrics P)) : Type 0 where
    pub metrics : ResourceMetrics P
    pub measured : r ≡ ok metrics
    pub p50_p90 : nanos metrics.p50 ≤ℤ nanos metrics.p90
    pub p90_p99 : nanos metrics.p90 ≤ℤ nanos metrics.p99
    pub within : ¬ (samples ≡ []) → IsWithin samples is_millicore metrics

  -- For samples from 0 to 2^53, and up to 2^53 of them, the percentiles are computed, without an
  -- index out of range, and the amount at p50 is at most that at p90, which is at most that at p99.
  -- If there are samples, the amount at p50 is at least that of one of them, and the amount at p99 at
  -- most that of one of them. The sort is assumed to permute and to order, quantities to be exact,
  -- and the rounding of float64 to be monotone.
  pub compute_percentiles-IsAscending :
      (samples : List ℤ) (is_millicore : Bool)
      → ((z : ℤ) → Mem z samples → IsSample z)
      → length samples ≤ 2 ^ 53
      → IsAscending samples is_millicore (compute_percentiles P samples is_millicore)
  unfolding compute_percentiles
  compute_percentiles-IsAscending [] is_millicore h few = record {
    metrics = _;
    measured = refl;
    p50_p90 = omega arith;
    p90_p99 = omega arith;
    within = λ some_sample. absurd (some_sample refl);
  }
  compute_percentiles-IsAscending (x ∷ xs) is_millicore h few =
      let sorted : List ℤ = P.sort ℤ ltb_ℤ (x ∷ xs) in
      let perm : Perm sorted (x ∷ xs) = sorts.sort_perm ℤ ltb_ℤ (x ∷ xs) in
      let same : length sorted ≡ length (x ∷ xs) = Perm-length sorted (x ∷ xs) perm in
      let order = sorts.sort_IsSortedBy ℤ ltb_ℤ (x ∷ xs) ltb-IsOrdering in
      let samples : (z : ℤ) → Mem z sorted → IsSample z = λ z m. h z ((Perm.mem_iff perm).0 m) in
      let (v, w, e, f, v_le) =
        percentile_mono fo sorted 50 90 samples order (omega arith) (omega arith) (omega arith) in
      let (w', u, g, i, w_le) =
        percentile_mono fo sorted 90 99 samples order (omega arith) (omega arith) (omega arith) in
      let q : w' ≡ w = cc in
      let among : (p : ℕ) (z : ℤ) → p ≤ 100 → percentile P sorted p ≡ some z → IsAmong (x ∷ xs) z =
        λ p z k m.
          IsAmong-perm sorted (x ∷ xs) z perm
            (percentile-IsAmong fo sorted p z samples order (omega arith) (omega arith) k m) in
      let least = among 50 v (omega arith) e in
      let most = among 99 u (omega arith) i in
      record {
        metrics = record {
          p50 = quantity_of P is_millicore v;
          p90 = quantity_of P is_millicore w;
          p99 = quantity_of P is_millicore u;
          samples = length (x ∷ xs);
        };
        measured = rw (e, f, i) refl;
        p50_p90 = quantity_of_mono is_millicore v w v_le;
        p90_p99 = quantity_of_mono is_millicore w u (rw q at w_le);
        within = λ some_sample. record {
          low = least.below;
          high = most.above;
          low_mem = least.below_mem;
          high_mem = most.above_mem;
          low_p50 = quantity_of_mono is_millicore least.below v least.below_le;
          p99_high = quantity_of_mono is_millicore u most.above most.le_above;
        };
      }
