-- ===== src/Platform/Sorting.antt =====
-- An insertion sort that meets what `sort.Slice` documents: `SortLaws` can hold.
use mathlib.Core.List.{mem-cons, not-mem-nil}
use mathlib.Core.List.Perm
use mathlib.Core.Logic.Or
use mathlib.Core.Bool.{Bool-set}
use optipod.Prelude.{
  ◌≡◌, Bool, true, false, inl, inr, List, [], ◌∷◌, Mem, Perm, Pairwise, Bool-cases, if◌then◌else◌,
}
use optipod.Platform.Laws.{IsOrdering, IsSortedBy}

module _ {A : Type 0} (less : A → A → Bool) where
  insert : A → List A → List A
  insert x [] = x ∷ []
  insert x (y ∷ ys) = if less y x then y ∷ insert x ys else x ∷ y ∷ ys

  unfoldable pub insertion_sort : List A → List A
  unfolding insert
  insertion_sort [] = []
  insertion_sort (x ∷ xs) = insert x (insertion_sort xs)

  insert-perm : (x : A) (l : List A) → Perm (insert x l) (x ∷ l)
  unfolding insert
  insert-perm x [] = Perm.rfl
  insert-perm x (y ∷ ys) = elim (Bool-cases (less y x)) [
    | inl e ↦ rw (e, insert) (Perm.trans (Perm.cons y (insert-perm x ys)) (Perm.swap x y ys))
    | inr e ↦ rw (e, insert) Perm.rfl
  ]

  pub insertion_sort-perm : (l : List A) → Perm (insertion_sort l) l
  unfolding insertion_sort
  insertion_sort-perm [] = Perm.rfl
  insertion_sort-perm (x ∷ xs) =
      Perm.trans (insert-perm x (insertion_sort xs)) (Perm.cons x (insertion_sort-perm xs))

  -- Nothing in the list is less than `x`.
  IsFloor : A → List A → Type 0
  IsFloor x l = (a : A) → Mem a l → less a x ≡ false

  IsFloor-cons : {x y : A} (l : List A) → less y x ≡ false → IsFloor x l → IsFloor x (y ∷ l)
  unfolding IsFloor
  IsFloor-cons {x} {y} l e h a m = Or.elim (Bool-set _ _) (mem-cons.0 m) (λ p. rw p e) (h a)

  module _ (o : IsOrdering less) where
    less_asym : (x y : A) → less y x ≡ true → less x y ≡ false
    less_asym x y h = elim (Bool-cases (less x y)) [
      | inl e ↦ cc (o.trans x y x e h, o.irrefl x)
      | inr e ↦ e
    ]

    insert-IsSortedBy : (x : A) {l : List A} → IsSortedBy less l → IsSortedBy less (insert x l)
    unfolding insert IsFloor
    insert-IsSortedBy x Pairwise.nil = Pairwise.cons (λ a m. absurd (not-mem-nil m)) Pairwise.nil
    insert-IsSortedBy x (Pairwise.cons {a = y} {l = ys} h s) = elim (Bool-cases (less y x)) [
      | inl e ↦
          rw (e, insert)
            (Pairwise.cons
              (λ a m. IsFloor-cons ys (less_asym x y e) h a ((Perm.mem_iff (insert-perm x ys)).0 m))
              (insert-IsSortedBy x s))
      | inr e ↦
          rw (e, insert)
            (Pairwise.cons (IsFloor-cons ys e (λ a m. o.false_trans a y x (h a m) e))
              (Pairwise.cons h s))
    ]

    pub insertion_sort-IsSortedBy : (l : List A) → IsSortedBy less (insertion_sort l)
    unfolding insertion_sort
    insertion_sort-IsSortedBy [] = Pairwise.nil
    insertion_sort-IsSortedBy (x ∷ xs) = insert-IsSortedBy x (insertion_sort-IsSortedBy xs)
