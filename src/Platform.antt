-- ===== src/Platform.antt =====
-- What OptiPod uses of other packages: `resource.Quantity` and label selectors of apimachinery,
-- float64 arithmetic, and `sort.Slice`. They are parameters of the model. Their documented
-- behaviour is stated apart, in `Platform.Laws`, for the theorems that rest on it.
pub mod Laws
pub mod FloatOrder
pub mod Sorting
pub mod Demo
use Prim.Native.Nat.{Ordering}
use optipod.Prelude.{ℕ, ℤ, String, Bool, Option, List}

-- `resource.Format`; `no_format` is that of the empty quantity.
pub data Format : Type 0 where
  decimal_exponent binary_si decimal_si no_format : Format

-- `labels.Set`, a map of strings.
abbrev pub Labels : Type 0
Labels = List (String × String)

-- `metav1.LabelSelectorRequirement`
pub record MatchExpression : Type 0 where
  pub key : String
  pub operator : String
  pub values : List String

-- `metav1.LabelSelector`
pub record LabelSelector : Type 0 where
  pub match_labels : Labels
  pub match_expressions : List MatchExpression

pub record Platform : Type 1 where
  -- `resource.Quantity`; an int64 stands as an integer.
  pub Quantity : Type 0
  pub format : Quantity → Format
  pub cmp : Quantity → Quantity → Ordering
  pub is_zero : Quantity → Bool
  pub milli_value : Quantity → ℤ
  pub value : Quantity → ℤ
  pub new_milli_quantity : ℤ → Format → Quantity
  pub new_quantity : ℤ → Format → Quantity
  pub parse_quantity : String → Option Quantity
  pub to_string : Quantity → String
  -- float64; `decimal n k` is the constant n / 10^k, `to_int64` is Go's conversion.
  pub Float : Type 0
  pub decimal : ℕ → ℕ → Float
  pub of_int64 : ℤ → Float
  pub to_int64 : Float → ℤ
  pub add : Float → Float → Float
  pub sub : Float → Float → Float
  pub mul : Float → Float → Float
  pub div : Float → Float → Float
  pub lt : Float → Float → Bool
  -- `metav1.LabelSelectorAsSelector` and then `Matches`; `none` is its error.
  pub selector : LabelSelector → Option (Labels → Bool)
  -- `sort.Slice`, by the given `less`.
  pub sort : (A : Type 0) → (A → A → Bool) → List A → List A
