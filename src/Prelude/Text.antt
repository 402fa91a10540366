-- ===== src/Prelude/Text.antt =====
-- Texts as Go compares them: equality, and `<` by bytes, which is the order of code points.
use Prim.Native.Nat.{compare as compare_ℕ, Ordering}
use Prim.Native.Char.{Char, code}
use Prim.Native.String.{String, compare, then as lexico}
use Prim.Native.String.compare as compare_laws
use mathlib.Core.Path.{◌≡◌, refl}
use mathlib.Core.Bool.{Bool, true, false}
use mathlib.Core.List.{List, [], ◌∷◌}
use native.Mathlib.Omega.{arith}
pub use text.Mathlib.TextEquality.{eq_iff}
use text.Mathlib.TextEquality.{Char-path}
use text.Mathlib.TextPositions.{compare_refl}
use text.Mathlib.Text.{◌==◌}
use optipod.Prelude.Tests.{if◌then◌else◌}

abbrev pub str_eq : String → String → Bool
str_eq = ◌==◌

abbrev is_lt : Ordering → Bool
is_lt Ordering.lt = true
is_lt _ = false

unfoldable pub str_lt : String → String → Bool
str_lt s t = is_lt (compare s t)

-- The loop that looks for a text in a list.
abbrev pub contains_str : List String → String → Bool
contains_str [] s = false
contains_str (x ∷ xs) s = if s == x then true else contains_str xs s

pub compare-cons :
    (c d : Char) (s t : String)
    → compare (String.◌∷◌ c s) (String.◌∷◌ d t) ≡ lexico (compare_ℕ (code c) (code d)) (compare s t)
compare-cons c d s t = λ i. compare_laws.cons-cons c d s t i

compare-nil_cons : (d : Char) (t : String) → compare String.[] (String.◌∷◌ d t) ≡ Ordering.lt
compare-nil_cons d t = λ i. compare_laws.nil-cons d t i

compare-cons_nil : (d : Char) (t : String) → compare (String.◌∷◌ d t) String.[] ≡ Ordering.gt
compare-cons_nil d t = λ i. compare_laws.cons-nil d t i

-- `<` on texts is transitive.
pub str_lt_trans : (s t u : String) → str_lt s t ≡ true → str_lt t u ≡ true → str_lt s u ≡ true
unfolding str_lt
str_lt_trans String.[] String.[] u h k = k
str_lt_trans String.[] (String.◌∷◌ d t) String.[] h k = ground (arith, compare-cons_nil d t)
str_lt_trans String.[] (String.◌∷◌ d t) (String.◌∷◌ e u) h k = ground (arith, compare-nil_cons e u)
str_lt_trans (String.◌∷◌ c s) String.[] u h k = ground (arith, compare-cons_nil c s)
str_lt_trans (String.◌∷◌ c s) (String.◌∷◌ d t) String.[] h k = ground (arith, compare-cons_nil d t)
str_lt_trans (String.◌∷◌ c s) (String.◌∷◌ d t) (String.◌∷◌ e u) h k =
    ground
      (arith, compare-cons c d s t, compare-cons d e t u, compare-cons c e s u, str_lt_trans s t u)

-- And so is its failure: the order is total.
pub str_lt-false_trans :
    (s t u : String) → str_lt s t ≡ false → str_lt t u ≡ false → str_lt s u ≡ false
unfolding str_lt
str_lt-false_trans s t String.[] h k = ground (arith, nil_least s)
  where
    nil_least : (s : String) → is_lt (compare s String.[]) ≡ false
    nil_least String.[] = refl
    nil_least (String.◌∷◌ c s) = rw (compare-cons_nil c s)
str_lt-false_trans s String.[] (String.◌∷◌ e u) h k = ground (arith, compare-nil_cons e u)
str_lt-false_trans String.[] (String.◌∷◌ d t) (String.◌∷◌ e u) h k =
    ground (arith, compare-nil_cons d t)
str_lt-false_trans (String.◌∷◌ c s) (String.◌∷◌ d t) (String.◌∷◌ e u) h k = ground (
  arith,
  compare-cons c d s t,
  compare-cons d e t u,
  compare-cons c e s u,
  str_lt-false_trans s t u,
)

pub str_lt_irrefl : (s : String) → str_lt s s ≡ false
unfolding str_lt
str_lt_irrefl s = rw (compare_refl s)

-- Texts neither of which is less are equal.
pub eq_of_not-str_lt : (s t : String) → str_lt s t ≡ false → str_lt t s ≡ false → s ≡ t
unfolding str_lt
eq_of_not-str_lt String.[] String.[] h k = refl
eq_of_not-str_lt String.[] (String.◌∷◌ d t) h k = ground (arith, compare-nil_cons d t)
eq_of_not-str_lt (String.◌∷◌ c s) String.[] h k = ground (arith, compare-nil_cons c s)
eq_of_not-str_lt (String.◌∷◌ c s) (String.◌∷◌ d t) h k =
    ground (arith, compare-cons c d s t, compare-cons d c t s, eq_of_not-str_lt s t, Char-path c d)
