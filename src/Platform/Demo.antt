-- ===== src/Platform/Demo.antt =====
-- A concrete platform, at which the theorems are applied: quantities are integers of nano-units,
-- and float64 is replaced by thousandths. It meets the laws, so the hypotheses can hold.

pub mod Floats
use optipod.Prelude.{
  pos_part, ℕ, suc, ◌+◌, ◌-◌, ◌*◌, ◌/◌, ◌^◌, ◌≤◌, ◌≡◌, refl, ℤ, pos, negsuc, ◌+ℤ◌, ◌-ℤ◌, ◌*ℤ◌, ◌≤ℤ◌,
  sub_ℕ, ltb_ℤ, eqb_ℤ, Bool, true, false, ◌&&◌, Option, none, some, [], ◌∷◌, String, str_eq,
  is_empty, arith, if◌then◌else◌,
}
use optipod.Platform.{Platform, Format, Labels, LabelSelector, decimal_si, binary_si}
use optipod.Platform.Laws.{SortLaws, QuantityLaws, FloatLaws, compare_ℤ}
use optipod.Platform.Sorting.{insertion_sort, insertion_sort-perm, insertion_sort-IsSortedBy}

pub record Amount : Type 0 where
  pub nanos : ℤ
  pub unit : Format

-- Rounded up.
abbrev pub ceil_div : ℤ → ℕ → ℤ
ceil_div (pos n) k = pos ((n + k - 1) / k)
ceil_div (negsuc n) k = sub_ℕ 0 (suc n / k)

-- Rounded towards zero.
abbrev pub trunc_div : ℤ → ℕ → ℤ
trunc_div (pos n) k = pos (n / k)
trunc_div (negsuc n) k = sub_ℕ 0 (suc n / k)

abbrev pub has_label : String → String → Labels → Bool
has_label k v [] = false
has_label k v ((j, w) ∷ rest) = if str_eq j k && str_eq w v then true else has_label k v rest

abbrev pub has_labels : Labels → Labels → Bool
has_labels [] labels = true
has_labels ((k, v) ∷ rest) labels = has_label k v labels && has_labels rest labels

abbrev pub demo_selector : LabelSelector → Option (Labels → Bool)
demo_selector s = if is_empty s.match_expressions then some (has_labels s.match_labels) else none

abbrev pub demo_parse : String → Option Amount
demo_parse s =
    if str_eq s "1Gi"
    then some (record { nanos = pos (2 ^ 30 * 10 ^ 9); unit = binary_si })
    else if str_eq s "500m"
    then some (record { nanos = pos (500 * 10 ^ 6); unit = decimal_si })
    else none

abbrev pub demo : Platform
demo = record {
  Quantity = Amount;
  format = λ q. q.unit;
  cmp = λ q r. compare_ℤ q.nanos r.nanos;
  is_zero = λ q. eqb_ℤ q.nanos (pos 0);
  milli_value = λ q. ceil_div q.nanos (10 ^ 6);
  value = λ q. ceil_div q.nanos (10 ^ 9);
  new_milli_quantity = λ n f. record { nanos = n *ℤ pos (10 ^ 6); unit = f };
  new_quantity = λ n f. record { nanos = n *ℤ pos (10 ^ 9); unit = f };
  parse_quantity = demo_parse;
  to_string = λ q. if eqb_ℤ q.nanos (pos 0) then "0" else "1";
  Float = ℤ;
  decimal = λ n k. pos (n * 1000 / 10 ^ k);
  of_int64 = λ n. n *ℤ pos 1000;
  to_int64 = λ x. trunc_div x 1000;
  add = ◌+ℤ◌;
  sub = ◌-ℤ◌;
  mul = λ x y. trunc_div (x *ℤ y) 1000;
  div = λ x y. trunc_div (x *ℤ pos 1000) (pos_part y);
  lt = ltb_ℤ;
  selector = demo_selector;
  sort = λ A. insertion_sort;
}

pub demo_sort : SortLaws demo
demo_sort = record {
  sort_perm = λ A less l. insertion_sort-perm less l;
  sort_IsSortedBy = λ A less l o. insertion_sort-IsSortedBy less o l;
}

pub ceil_div_up : (z : ℤ) → z ≤ℤ ceil_div z (10 ^ 6) *ℤ pos (10 ^ 6)
unfolding ◌*ℤ◌
ceil_div_up (pos n) = ground arith
ceil_div_up (negsuc n) = ground arith

pub ceil_div_up_giga : (z : ℤ) → z ≤ℤ ceil_div z (10 ^ 9) *ℤ pos (10 ^ 9)
unfolding ◌*ℤ◌
ceil_div_up_giga (pos n) = ground arith
ceil_div_up_giga (negsuc n) = ground arith

abbrev pub demo_quantity : QuantityLaws demo
demo_quantity = record {
  nanos = λ q. q.nanos;
  cmp-nanos = λ q r. refl;
  milli_value-up = λ q. ceil_div_up q.nanos;
  value-up = λ q. ceil_div_up_giga q.nanos;
  nanos-new_milli_quantity = λ n f. refl;
  nanos-new_quantity = λ n f. refl;
}

scaled_up : (n m : ℕ) → 1000 ≤ m → n ≤ n * 1000 * m / 1000 / 1000
scaled_up n m h = let p : n * 1000 * 1000 ≤ n * 1000 * m = grind arith in omega arith

scaled_grows :
    (n : ℕ) (f : ℤ)
    → ltb_ℤ f (pos 1000) ≡ false
    → pos n ≤ℤ trunc_div (trunc_div (pos n *ℤ pos 1000 *ℤ f) 1000) 1000
unfolding ◌*ℤ◌
scaled_grows n (pos m) h = ground (arith, scaled_up n m)
scaled_grows n (negsuc m) h = ground arith

pub demo_float : FloatLaws demo
demo_float = record { default_factor = refl; grows = λ n f h k l. scaled_grows n f k }
