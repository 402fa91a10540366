-- ===== src/Metrics/Server/Cells.antt =====
-- The value of a percentile in the sorted samples: between the two samples at its rank.
use mathlib.Core.List.{mem-cons_self, mem-cons_of_mem}
use mathlib.Core.Path.{subst}
use mathlib.Core.Option.{some-injective}
use optipod.Prelude.{
  ◌∙◌, ◌≡◌, refl, inl, inr, ℕ, zero, suc, ◌^◌, ◌≤◌, ◌<◌, ltb, ℤ, pos, ◌+ℤ◌, ◌≤ℤ◌, ltb_ℤ, Bool-cases,
  true, false, some, List, [], ◌∷◌, length, get_elem?, Mem, Pairwise, arith,
}
use optipod.Platform.{Platform}
use optipod.Platform.Laws.{IsSortedBy}
use optipod.Platform.FloatOrder.{FloatOrder}
use optipod.Metrics.Server.{percentile, interpolate}
use optipod.Metrics.Server.Interpolation.{
  rank, blend, rank_positive, rank_bounded, IsInCell, blend_mono, blend_above, blend_below,
  to_between,
}

get_elem?-total : (l : List ℤ) (i : ℕ) → i < length l → (z : ℤ) × (get_elem? l i ≡ some z)
get_elem?-total [] i h = absurd (omega arith)
get_elem?-total (x ∷ xs) zero h = (x, refl)
get_elem?-total (x ∷ xs) (suc i) h = get_elem?-total xs i (omega arith)

pub mem_of_get_elem? : (l : List ℤ) (i : ℕ) (z : ℤ) → get_elem? l i ≡ some z → Mem z l
mem_of_get_elem? [] i z h = cc
mem_of_get_elem? (x ∷ xs) zero z h =
    subst (λ u. Mem u (x ∷ xs)) (some-injective x z h) mem-cons_self
mem_of_get_elem? (x ∷ xs) (suc i) z h = mem-cons_of_mem x (mem_of_get_elem? xs i z h)

get_elem?-sorted :
    (l : List ℤ) (i j : ℕ) (a b : ℤ)
    → IsSortedBy ltb_ℤ l
    → i ≤ j
    → get_elem? l i ≡ some a
    → get_elem? l j ≡ some b
    → ltb_ℤ b a ≡ false
get_elem?-sorted [] i j a b s h e f = cc
get_elem?-sorted (x ∷ xs) zero zero a b s h e f = let q : a ≡ b = cc in ground (arith, q)
get_elem?-sorted (x ∷ xs) zero (suc j) a b (Pairwise.cons below s) h e f =
    subst (λ u. ltb_ℤ b u ≡ false) (some-injective x a e) (below b (mem_of_get_elem? xs j b f))
get_elem?-sorted (x ∷ xs) (suc i) zero a b s h e f = absurd (omega arith)
get_elem?-sorted (x ∷ xs) (suc i) (suc j) a b (Pairwise.cons below s) h e f =
    get_elem?-sorted xs i j a b s (omega arith) e f

plus_one : (k : ℕ) → pos k +ℤ pos 1 ≡ pos (suc k)
unfolding ◌+ℤ◌
plus_one k = ground arith

-- A sample is at least 0 and at most 2^53, up to which float64 is exact.
abbrev pub IsSample : ℤ → Type 0
IsSample z = (n : ℕ) × (z ≡ pos n) × (n ≤ 2 ^ 53)

module _ {P : Platform} (fo : FloatOrder P) (x y : ℤ) (rest : List ℤ) where
  open P use {Float, of_int64, to_int64}
  open fo use {le}

  abbrev pub sorted : List ℤ
  sorted = x ∷ (y ∷ rest)

  abbrev pub last : ℕ
  last = suc (length rest)

  -- Where a rank lies, and the value there.
  pub data Cell (r : Float) : ℤ → Type 0 where
    at_end : (b : ℕ) → to_int64 r ≡ pos last → get_elem? sorted last ≡ some (pos b) → Cell r (pos b)
    inside :
        (k a b : ℕ)
        → to_int64 r ≡ pos k
        → k < last
        → IsInCell fo r k
        → get_elem? sorted k ≡ some (pos a)
        → get_elem? sorted (suc k) ≡ some (pos b)
        → Cell r (to_int64 (blend P r k a b))

  module _ (samples : (z : ℤ) → Mem z sorted → IsSample z) (order : IsSortedBy ltb_ℤ sorted)
      (few : last ≤ 2 ^ 53) where
    sample_at : (i : ℕ) → i ≤ last → (n : ℕ) × (get_elem? sorted i ≡ some (pos n)) × (n ≤ 2 ^ 53)
    sample_at i h =
        let (z, e) = get_elem?-total sorted i (omega arith) in
        let (n, is, small) = samples z (mem_of_get_elem? sorted i z e) in (n, rw is at e, small)

    ascending :
        (i j a b : ℕ)
        → i ≤ j
        → get_elem? sorted i ≡ some (pos a)
        → get_elem? sorted j ≡ some (pos b)
        → a ≤ b
    ascending i j a b h e f =
        let least = get_elem?-sorted sorted i j (pos a) (pos b) order h e f in ground arith

    small_at : (i b : ℕ) → i ≤ last → get_elem? sorted i ≡ some (pos b) → b ≤ 2 ^ 53
    small_at i b h e = let (n, f, small) = sample_at i h in let q : n ≡ b = cc in omega arith

    percentile_end :
        (p : ℕ)
        → to_int64 (rank P p last) ≡ pos last
        → percentile P sorted p ≡ get_elem? sorted last
    unfolding percentile
    percentile_end p h =
        let past : ltb_ℤ (pos last) (pos (suc last)) ≡ true = ground arith in
        rw (h, plus_one last, past) refl

    percentile_inside :
        (p k a b : ℕ)
        → to_int64 (rank P p last) ≡ pos k
        → k < last
        → get_elem? sorted k ≡ some (pos a)
        → get_elem? sorted (suc k) ≡ some (pos b)
        → percentile P sorted p ≡ some (to_int64 (blend P (rank P p last) k a b))
    unfolding percentile interpolate
    percentile_inside p k a b h l e f =
        let within : ltb_ℤ (pos last) (pos (suc k)) ≡ false = ground arith in
        rw (h, plus_one k, within, e, h, plus_one k, f) (rw (interpolate, h) refl)

    rank-IsInCell :
        (p : ℕ)
        → p ≤ 100
        → (k : ℕ) × (to_int64 (rank P p last) ≡ pos k)
          × (k ≤ last)
          × (k < last → IsInCell fo (rank P p last) k)
    rank-IsInCell p h =
        let low = rank_positive fo p last h few in
        let high = rank_bounded fo p last h few in
        let most = fo.of_mono last (2 ^ 53) few in
        let (k, is, above, below) = fo.to_part (rank P p last) low (fo.trans high most) in
        let bounded = fo.to_mono (rank P p last) (of_int64 (pos last)) low high most in
        let k_le : pos k ≤ℤ pos last = rw (is, fo.to_of last few) at bounded in
        (k, is, omega arith, λ l. record { above = above; below = below; small = omega arith })

    pub percentile-Cell :
        (p : ℕ) → p ≤ 100 → (v : ℤ) × (percentile P sorted p ≡ some v) × Cell (rank P p last) v
    percentile-Cell p h =
        let (k, is, k_le, cell) = rank-IsInCell p h in
        elim (Bool-cases (ltb k last)) [
          | inl less ↦
              let l : k < last = ground arith in
              let (a, e, small_a) = sample_at k k_le in
              let (b, f, small_b) = sample_at (suc k) (omega arith) in
              (_, percentile_inside p k a b is l e f, inside k a b is l (cell l) e f)
          | inr not_less ↦
              let q : k ≡ last = ground arith in
              let (b, e, small_b) = sample_at last (omega arith) in
              let at_last = rw q at is in (pos b, percentile_end p at_last ∙ e, at_end b at_last e)
        ]

    pub inside_between :
        (r : Float) (k a b : ℕ)
        → k < last
        → IsInCell fo r k
        → get_elem? sorted k ≡ some (pos a)
        → get_elem? sorted (suc k) ≡ some (pos b)
        → (pos a ≤ℤ to_int64 (blend P r k a b)) × (to_int64 (blend P r k a b) ≤ℤ pos b)
    inside_between r k a b l c e f =
        let a_le = ascending k (suc k) a b (omega arith) e f in
        let small = small_at (suc k) b (omega arith) f in
        to_between fo a b a_le small _ (blend_above fo a b a_le small r k c)
          (blend_below fo a b a_le small r k c)

    same_cell :
        (r s : Float) (i j a a' b b' : ℕ)
        → le r s
        → j ≡ i
        → i < last
        → IsInCell fo r i
        → IsInCell fo s j
        → get_elem? sorted i ≡ some (pos a)
        → get_elem? sorted j ≡ some (pos a')
        → get_elem? sorted (suc i) ≡ some (pos b)
        → get_elem? sorted (suc j) ≡ some (pos b')
        → to_int64 (blend P r i a b) ≤ℤ to_int64 (blend P s j a' b')
    same_cell r s i j a a' b b' h q l c c' f f' g g' =
        let qa : a' ≡ a = (let m : get_elem? sorted i ≡ some (pos a') = rw q at f' in cc) in
        let qb : b' ≡ b = (let m : get_elem? sorted (suc i) ≡ some (pos b') = rw q at g' in cc) in
        let a_le = ascending i (suc i) a b (omega arith) f g in
        let small = small_at (suc i) b (omega arith) g in
        let d : IsInCell fo s i = subst (IsInCell fo s) q c' in
        rw (q, qa, qb)
          (fo.to_mono _ _
            (fo.trans (fo.of_mono 0 a (omega arith)) (blend_above fo a b a_le small r i c))
            (blend_mono fo a b a_le small r s i c d h)
            (fo.trans (blend_below fo a b a_le small s i d) (fo.of_mono b _ small)))

    pub Cell_mono :
        (r s : Float) (v w : ℤ) → le r s → to_int64 r ≤ℤ to_int64 s → Cell r v → Cell s w → v ≤ℤ w
    Cell_mono r s v w h k (at_end b e f) (at_end b' e' f') =
        let b_le = ascending last last b b' (omega arith) f f' in omega arith
    Cell_mono r s v w h k (at_end b e f) (inside k' a' b' e' l c f' g) =
        let q : pos last ≤ℤ pos k' = rw (e, e') at k in absurd (omega arith)
    Cell_mono r s v w h k (inside i a b e l c f g) (at_end b' e' f') =
        let b_le = ascending (suc i) last b b' (omega arith) g f' in
        let v_le = (inside_between r i a b l c f g).1 in omega arith
    Cell_mono r s v w h k (inside i a b e l c f g) (inside j a' b' e' l' c' f' g') =
        let q : pos i ≤ℤ pos j = rw (e, e') at k in
        elim (Bool-cases (ltb i j)) [
          | inl less ↦
              let b_le = ascending (suc i) j b a' (ground arith) g f' in
              let v_le = (inside_between r i a b l c f g).1 in
              let w_ge = (inside_between s j a' b' l' c' f' g').0 in omega arith
          | inr not_less ↦
              let same : j ≡ i = ground arith in same_cell r s i j a a' b b' h same l c c' f f' g g'
        ]
