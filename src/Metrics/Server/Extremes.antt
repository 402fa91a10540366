-- ===== src/Metrics/Server/Extremes.antt =====
-- A percentile lies between two of the samples.
use mathlib.Core.List.Perm
use mathlib.Core.List.{mem-cons_self}
use mathlib.Core.Path.{subst}
use mathlib.Core.Option.{some-injective}
use optipod.Prelude.{
  ◌≡◌, ◌∙◌, sym, ℕ, suc, ◌^◌, ◌≤◌, ℤ, pos, ◌≤ℤ◌, ltb_ℤ, some, List, [], ◌∷◌, length, Mem, Perm,
  arith,
}
use optipod.Platform.{Platform}
use optipod.Platform.Laws.{IsSortedBy}
use optipod.Platform.FloatOrder.{FloatOrder}
use optipod.Metrics.Server.{percentile}
use optipod.Metrics.Server.Cells.{
  IsSample, Cell, at_end, inside, percentile-Cell, inside_between, mem_of_get_elem?,
}

-- A sample of `l` that is at most `v`, and one that is at least `v`.
pub record IsAmong (l : List ℤ) (v : ℤ) : Type 0 where
  pub below : ℤ
  pub above : ℤ
  pub below_mem : Mem below l
  pub above_mem : Mem above l
  pub below_le : below ≤ℤ v
  pub le_above : v ≤ℤ above

IsAmong-mem : (l : List ℤ) (v : ℤ) → Mem v l → IsAmong l v
IsAmong-mem l v m = record {
  below = v;
  above = v;
  below_mem = m;
  above_mem = m;
  below_le = omega arith;
  le_above = omega arith;
}

pub IsAmong-perm : (l m : List ℤ) (v : ℤ) → Perm l m → IsAmong l v → IsAmong m v
IsAmong-perm l m v p among = record {
  below = among.below;
  above = among.above;
  below_mem = (Perm.mem_iff p).0 among.below_mem;
  above_mem = (Perm.mem_iff p).0 among.above_mem;
  below_le = among.below_le;
  le_above = among.le_above;
}

module _ {P : Platform} (fo : FloatOrder P) where
  Cell-IsAmong :
      (x y : ℤ) (rest : List ℤ)
      → ((z : ℤ) → Mem z (x ∷ (y ∷ rest)) → IsSample z)
      → IsSortedBy ltb_ℤ (x ∷ (y ∷ rest))
      → suc (length rest) ≤ 2 ^ 53
      → (r : P.Float) (v : ℤ) → Cell fo x y rest r v
      → IsAmong (x ∷ (y ∷ rest)) v
  Cell-IsAmong x y rest samples order few r v (at_end b e f) =
      IsAmong-mem _ (pos b) (mem_of_get_elem? _ (suc (length rest)) (pos b) f)
  Cell-IsAmong x y rest samples order few r v (inside k a b e l c f g) =
      let (low, high) = inside_between fo x y rest samples order few r k a b l c f g in
      record {
        below = pos a;
        above = pos b;
        below_mem = mem_of_get_elem? _ k (pos a) f;
        above_mem = mem_of_get_elem? _ (suc k) (pos b) g;
        below_le = low;
        le_above = high;
      }

  pub percentile-IsAmong :
      (l : List ℤ) (p : ℕ) (v : ℤ)
      → ((z : ℤ) → Mem z l → IsSample z)
      → IsSortedBy ltb_ℤ l
      → 1 ≤ length l
      → length l ≤ 2 ^ 53
      → p ≤ 100
      → percentile P l p ≡ some v
      → IsAmong l v
  unfolding percentile
  percentile-IsAmong [] p v samples order some_l few h e = absurd (omega arith)
  percentile-IsAmong (x ∷ []) p v samples order some_l few h e =
      subst (λ u. IsAmong (x ∷ []) u) (some-injective x v e) (IsAmong-mem (x ∷ []) x mem-cons_self)
  percentile-IsAmong (x ∷ (y ∷ rest)) p v samples order some_l few h e =
      let (u, f, cell) = percentile-Cell fo x y rest samples order (omega arith) p h in
      subst (λ z. IsAmong (x ∷ (y ∷ rest)) z) (some-injective u v (sym f ∙ e))
        (Cell-IsAmong x y rest samples order (omega arith) _ u cell)
