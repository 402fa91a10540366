-- ===== src/Prelude/Lists.antt =====
-- Lists measured by native numbers, Boolean tests over lists, and predicates by recursion.
use Prim.Native.Nat.{ℕ, zero, suc, ◌+◌, ◌≤◌}
use mathlib.Core.Path.{◌≡◌}
use mathlib.Core.Bool.{Bool, true, false, false≢true}
use mathlib.Core.Logic.{inl, inr}
use mathlib.Core.Logic.Or
use mathlib.Core.Bool.{Bool-set}
use mathlib.Core.List.{List, [], ◌∷◌, ◌++◌, Mem, mem-cons, not-mem-nil, mem-cons_of_mem, Mem-prop}
use mathlib.Core.HLevel.{×_prop}
use mathlib.Core.Option.{Option, none, some}
use native.Mathlib.Omega.{arith}
use optipod.Prelude.Tests.{if◌then◌else◌, Bool-cases}

module _ {ℓ} {A : Type ℓ} where
  abbrev pub length : List A → ℕ
  length [] = 0
  length (x ∷ xs) = suc (length xs)

  abbrev pub get_elem? : List A → ℕ → Option A
  get_elem? [] i = none
  get_elem? (x ∷ xs) zero = some x
  get_elem? (x ∷ xs) (suc i) = get_elem? xs i

  abbrev pub is_empty : List A → Bool
  is_empty [] = true
  is_empty (x ∷ xs) = false

  -- The elements that pass a Boolean test, in their order.
  abbrev pub select : (A → Bool) → List A → List A
  select p [] = []
  select p (x ∷ xs) = let rest = select p xs in if p x then x ∷ rest else rest

  abbrev pub All {κ} : (A → Type κ) → List A → Type κ
  All P [] = Unit
  All P (x ∷ xs) = P x × All P xs

  pub length-append : (xs ys : List A) → length (xs ++ ys) ≡ length xs + length ys
  length-append [] ys = omega arith
  length-append (x ∷ xs) ys = omega (arith, length-append xs ys)

  pub length-select : (p : A → Bool) (xs : List A) → length (select p xs) ≤ length xs
  length-select p [] = omega arith
  length-select p (x ∷ xs) = ground (arith, length-select p xs)

module _ {ℓ κ} {A : Type ℓ} (P : A → Type κ) where
  pub All-append : (xs ys : List A) → All P xs → All P ys → All P (xs ++ ys)
  All-append [] ys h k = k
  All-append (x ∷ xs) ys h k = (h.0, All-append xs ys h.1 k)

-- What a selection holds.
module _ {ℓ} {A : Type ℓ} (p : A → Bool) where
  pub mem_of_mem-select : {a : A} (xs : List A) → Mem a (select p xs) → Mem a xs × (p a ≡ true)
  mem_of_mem-select [] m = absurd (not-mem-nil m)
  mem_of_mem-select {a} (x ∷ xs) m = elim (Bool-cases (p x)) [
    | inl e ↦
        Or.elim (×_prop Mem-prop (Bool-set _ _)) (mem-cons.0 (rw e at m))
          (λ q. (mem-cons.1 (Or.inl q), rw q e))
          (λ n. let (there, holds) = mem_of_mem-select xs n in (mem-cons_of_mem x there, holds))
    | inr e ↦
        let (there, holds) = mem_of_mem-select xs (rw e at m) in (mem-cons_of_mem x there, holds)
  ]

  pub mem-select : {a : A} (xs : List A) → Mem a xs → p a ≡ true → Mem a (select p xs)
  mem-select [] m h = absurd (not-mem-nil m)
  mem-select {a} (x ∷ xs) m h = elim (Bool-cases (p x)) [
    | inl e ↦ rw e (
        Or.elim Mem-prop (mem-cons.0 m) (λ q. mem-cons.1 (Or.inl q))
          (λ n. mem-cons_of_mem x (mem-select xs n h)))
    | inr e ↦ rw e (
        Or.elim Mem-prop (mem-cons.0 m) (λ q. absurd (false≢true (e' q e)))
          (λ n. mem-select xs n h))
  ]
    where
      e' : a ≡ x → p x ≡ false → false ≡ true
      e' q e = cc
