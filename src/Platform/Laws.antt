-- ===== src/Platform/Laws.antt =====
-- The documented behaviour that the theorems rest on, as hypotheses about a `Platform`.
use Prim.Native.Nat.{Ordering, compare}
use optipod.Prelude.{
  ℕ, ℤ, pos, pos_part, neg_part, ◌+◌, ◌^◌, ◌≤◌, ◌≤ℤ◌, ◌*ℤ◌, ◌≡◌, Bool, true, false, List, Perm,
  Pairwise,
}
use optipod.Platform.{Platform, Format}

-- What `less` must satisfy for `sort.Slice`: a strict, transitive ordering.
pub record IsOrdering {A : Type 0} (less : A → A → Bool) : Type 0 where
  pub irrefl : (a : A) → less a a ≡ false
  pub trans : (a b c : A) → less a b ≡ true → less b c ≡ true → less a c ≡ true
  pub false_trans : (a b c : A) → less a b ≡ false → less b c ≡ false → less a c ≡ false

-- No later element is less than an earlier one.
abbrev pub IsSortedBy : {A : Type 0} → (A → A → Bool) → List A → Type 0
IsSortedBy less = Pairwise (λ a b. less b a ≡ false)

-- `sort.Slice` permutes the slice and leaves it sorted; where equal elements go is not specified.
pub record SortLaws (P : Platform) : Type 1 where
  pub sort_perm : (A : Type 0) (less : A → A → Bool) (l : List A) → Perm (P.sort A less l) l
  pub sort_IsSortedBy :
      (A : Type 0) (less : A → A → Bool) (l : List A)
      → IsOrdering less
      → IsSortedBy less (P.sort A less l)

abbrev pub compare_ℤ : ℤ → ℤ → Ordering
compare_ℤ a b = compare (pos_part a + neg_part b) (pos_part b + neg_part a)

-- A quantity is an amount, here counted in nano-units, and `Cmp` compares amounts.
pub record QuantityLaws (P : Platform) : Type 0 where
  pub nanos : P.Quantity → ℤ
  pub cmp-nanos : (q r : P.Quantity) → P.cmp q r ≡ compare_ℤ (nanos q) (nanos r)
  -- `MilliValue` and `Value` round up, and the constructors are exact.
  pub milli_value-up : (q : P.Quantity) → nanos q ≤ℤ P.milli_value q *ℤ pos (10 ^ 6)
  pub value-up : (q : P.Quantity) → nanos q ≤ℤ P.value q *ℤ pos (10 ^ 9)
  pub nanos-new_milli_quantity :
      (n : ℤ) (f : Format) → nanos (P.new_milli_quantity n f) ≡ n *ℤ pos (10 ^ 6)
  pub nanos-new_quantity : (n : ℤ) (f : Format) → nanos (P.new_quantity n f) ≡ n *ℤ pos (10 ^ 9)

-- float64: an integer up to 2^53 is exact, so a factor of at least 1.0 does not make it smaller,
-- as long as the product is in the range of int64 (which NaN and infinities are not).
pub record FloatLaws (P : Platform) : Type 0 where
  -- 1.2 is not below 1.0.
  pub default_factor : P.lt (P.decimal 12 1) (P.decimal 1 0) ≡ false
  pub grows :
      (n : ℕ) (f : P.Float)
      → n ≤ 2 ^ 53
      → P.lt f (P.decimal 1 0) ≡ false
      → P.lt (P.mul (P.of_int64 (pos n)) f) (P.of_int64 (pos (2 ^ 63))) ≡ true
      → pos n ≤ℤ P.to_int64 (P.mul (P.of_int64 (pos n)) f)
