-- ===== src/Api/Validation/Laws.antt =====
-- Validation accepts exactly the policies that meet the conditions which are spelled out here.
use optipod.Prelude.{
  ◌≡◌, ◌⊎◌, refl, ◌≢◌, ◌↔◌, ℕ, suc, ℤ, pos, ◌≤ℤ◌, String, str_eq, eq_iff, Bool, true, false, Option,
  none, some, List, [], ◌∷◌, is_some, is_empty, All, Result, ok, err, ◌>>◌, require, check_present,
  arith, not, ◌||◌,
}
use Prim.Native.Nat.{Ordering}
use optipod.Platform.{Platform, LabelSelector, MatchExpression}
use optipod.Api.WorkloadTypes.{WorkloadType, WorkloadTypeFilter}
use optipod.Api.Types.{
  WorkloadSelector, ResourceBound, OptimizationPolicy, mode_auto, mode_recommend, mode_disabled,
}
use optipod.Api.Validation.{
  Field, provider_required, namespace_selector, workload_selector, include, exclude, validate_mode,
  validate_expression, validate_expressions, validate_label_selector, validate_types,
  validate_workload_types, validate_selector, validate_bound, validate_safety_factor,
  validate_weight, validate_create,
}

-- What holds of a value that is there.
abbrev pub IfPresent {ℓ κ} : {A : Type ℓ} → (A → Type κ) → Option A → Type κ
IfPresent P none = Unit
IfPresent P (some a) = P a

-- In and NotIn ask for values, Exists and DoesNotExist forbid them, and there is no other operator.
pub record IsValidExpression (e : MatchExpression) : Type 0 where
  pub has_key : e.key ≢ ""
  pub has_operator :
      (((e.operator ≡ "In") ⊎ (e.operator ≡ "NotIn")) × (e.values ≢ []))
      ⊎ (((e.operator ≡ "Exists") ⊎ (e.operator ≡ "DoesNotExist")) × (e.values ≡ []))

abbrev pub IsKnownType : WorkloadType → Type 0
IsKnownType t = (t ≡ "Deployment") ⊎ ((t ≡ "StatefulSet") ⊎ (t ≡ "DaemonSet"))

abbrev pub IsValidLabelSelector : LabelSelector → Type 0
IsValidLabelSelector s = All IsValidExpression s.match_expressions

pub record IsValidTypes (f : WorkloadTypeFilter) : Type 0 where
  pub included : All IsKnownType f.include
  pub excluded : All IsKnownType f.exclude

pub record IsValidSelector (s : WorkloadSelector) : Type 0 where
  pub selects :
      (is_some s.namespace_selector || is_some s.workload_selector || is_some s.namespaces) ≡ true
  pub namespaces_valid : IfPresent IsValidLabelSelector s.namespace_selector
  pub workloads_valid : IfPresent IsValidLabelSelector s.workload_selector
  pub types_valid : IfPresent IsValidTypes s.workload_types

module _ {P : Platform} where
  open P use {cmp, is_zero, lt, decimal, Float}

  pub record IsValidBound (b : ResourceBound P) : Type 0 where
    pub min_set : is_zero b.min ≡ false
    pub max_set : is_zero b.max ≡ false
    pub ordered : cmp b.min b.max ≢ Ordering.gt

abbrev pub IsKnownMode : String → Type 0
IsKnownMode m = (m ≡ "Auto") ⊎ ((m ≡ "Recommend") ⊎ (m ≡ "Disabled"))

abbrev pub IsValidWeight : ℤ → Type 0
IsValidWeight w = (pos 1 ≤ℤ w) × (w ≤ℤ pos 1000)

module _ {P : Platform} where
  open P use {lt, decimal}

  pub record IsValidPolicy (p : OptimizationPolicy P) : Type 0 where
    pub mode : IsKnownMode p.spec.mode
    pub selector : IsValidSelector p.spec.selector
    pub provider : p.spec.metrics_config.provider ≢ ""
    pub cpu_bound : IsValidBound p.spec.resource_bounds.cpu
    pub memory_bound : IsValidBound p.spec.resource_bounds.memory
    pub safety_factor :
        IfPresent (λ f. lt f (decimal 1 0) ≡ false) p.spec.metrics_config.safety_factor
    pub weight : IfPresent IsValidWeight p.spec.weight

require_ok : {E : Type 0} (b : Bool) (e : E) → (require b e ≡ ok tt) ↔ (b ≡ true)
require_ok b e = ground arith

>>_ok : {E : Type 0} (m k : Result E (Unit {0})) → ((m >> k) ≡ ok tt) ↔ ((m ≡ ok tt) × (k ≡ ok tt))
>>_ok (ok tt) k = (λ h. (refl, h), λ h. h.1)
>>_ok (err e) k = (λ h. cc, λ h. cc h.0)

-- A check, and then another.
both_ok :
    {E A B : Type 0} {m k : Result E (Unit {0})}
    → (m ≡ ok tt) ↔ A
    → (k ≡ ok tt) ↔ B
    → ((m >> k) ≡ ok tt) ↔ (A × B)
both_ok {m} {k} a b =
    (λ h. (a.0 ((>>_ok m k).0 h).0, b.0 ((>>_ok m k).0 h).1), λ h. (>>_ok m k).1 (a.1 h.0, b.1 h.1))

check_present_ok :
    {E A : Type 0} (Q : A → Type 0) (f : A → Result E (Unit {0}))
    → ((a : A) → (f a ≡ ok tt) ↔ Q a)
    → (o : Option A) → (check_present f o ≡ ok tt) ↔ IfPresent Q o
check_present_ok Q f h none = (λ _. tt, λ _. refl)
check_present_ok Q f h (some a) = h a

mode_ok : (m : String) → (validate_mode m ≡ ok tt) ↔ IsKnownMode m
unfolding validate_mode
mode_ok m = ground (
  arith,
  eq_iff m "",
  eq_iff m mode_auto,
  eq_iff m mode_recommend,
  eq_iff m mode_disabled,
  eq_iff mode_auto "",
  eq_iff mode_recommend "",
  eq_iff mode_disabled "",
)

is_empty_iff : {A : Type 0} (l : List A) → (is_empty l ≡ true) ↔ (l ≡ [])
is_empty_iff [] = (λ _. refl, λ _. refl)
is_empty_iff (x ∷ xs) = (λ h. cc, λ h. cc)

expression_ok :
    (f : Field) (i : ℕ) (e : MatchExpression)
    → (validate_expression f i e ≡ ok tt) ↔ IsValidExpression e
unfolding validate_expression
expression_ok f i e = ground (
  arith,
  eq_iff e.key "",
  eq_iff e.operator "In",
  eq_iff e.operator "NotIn",
  eq_iff e.operator "Exists",
  eq_iff e.operator "DoesNotExist",
  eq_iff "In" "Exists",
  eq_iff "In" "DoesNotExist",
  eq_iff "NotIn" "Exists",
  eq_iff "NotIn" "DoesNotExist",
  is_empty_iff e.values,
)

expressions_ok :
    (f : Field) (i : ℕ) (es : List MatchExpression)
    → (validate_expressions f i es ≡ ok tt) ↔ All IsValidExpression es
unfolding validate_expressions
expressions_ok f i [] = (λ _. tt, λ _. refl)
expressions_ok f i (e ∷ es) =
    let (to_both, of_both) =
      >>_ok (validate_expression f i e) (validate_expressions f (suc i) es) in
    let (to_head, of_head) = expression_ok f i e in
    let (to_tail, of_tail) = expressions_ok f (suc i) es in
    (λ h. (to_head (to_both h).0, to_tail (to_both h).1), λ h. of_both (of_head h.0, of_tail h.1))

label_selector_ok :
    (f : Field) (s : LabelSelector) → (validate_label_selector f s ≡ ok tt) ↔ IsValidLabelSelector s
unfolding validate_label_selector
label_selector_ok f s = expressions_ok f 0 s.match_expressions

types_ok :
    (f : Field) (i : ℕ) (ts : List WorkloadType)
    → (validate_types f i ts ≡ ok tt) ↔ All IsKnownType ts
unfolding validate_types
types_ok f i [] = (λ _. tt, λ _. refl)
types_ok f i (t ∷ ts) = ground (
  arith,
  types_ok f (suc i) ts,
  eq_iff t "Deployment",
  eq_iff t "StatefulSet",
  eq_iff t "DaemonSet",
)

workload_types_ok : (f : WorkloadTypeFilter) → (validate_workload_types f ≡ ok tt) ↔ IsValidTypes f
unfolding validate_workload_types
workload_types_ok f = ground (arith, types_ok include 0 f.include, types_ok exclude 0 f.exclude)

selector_ok : (s : WorkloadSelector) → (validate_selector s ≡ ok tt) ↔ IsValidSelector s
unfolding validate_selector
selector_ok s = ground (
  arith,
  check_present_ok IsValidLabelSelector (validate_label_selector namespace_selector)
      (label_selector_ok namespace_selector) s.namespace_selector,
  check_present_ok IsValidLabelSelector (validate_label_selector workload_selector)
      (label_selector_ok workload_selector) s.workload_selector,
  check_present_ok IsValidTypes validate_workload_types workload_types_ok s.workload_types,
)

provider_ok : (s : String) → (require (not (str_eq s "")) provider_required ≡ ok tt) ↔ (s ≢ "")
provider_ok s = ground (arith, eq_iff s "")

weight_ok : (w : Option ℤ) → (validate_weight w ≡ ok tt) ↔ IfPresent IsValidWeight w
unfolding validate_weight
weight_ok none = (λ _. tt, λ _. refl)
weight_ok (some w) = ground arith

module _ {P : Platform} where
  open P use {lt, decimal, Float}

  bound_ok : (f : Field) (b : ResourceBound P) → (validate_bound f b ≡ ok tt) ↔ IsValidBound b
  unfolding validate_bound
  bound_ok f b = ground arith

module _ (P : Platform) where
  open P use {lt, decimal, Float}

  safety_factor_ok :
      (o : Option Float)
      → (validate_safety_factor P o ≡ ok tt) ↔ IfPresent (λ f. lt f (decimal 1 0) ≡ false) o
  unfolding validate_safety_factor
  safety_factor_ok none = (λ _. tt, λ _. refl)
  safety_factor_ok (some f) = ground arith

module _ {P : Platform} where
  -- A policy passes validation on creation, and likewise on update, exactly if its mode is one of
  -- the three, some selector is given, its label selectors and type filters are well formed, a
  -- metrics provider is named, both resource bounds are non-zero with the minimum not above the
  -- maximum, a given safety factor is not below 1.0 and a given weight lies in 1 to 1000.
  pub validate_create_iff :
      (p : OptimizationPolicy P) → (validate_create p ≡ ok tt) ↔ IsValidPolicy p
  unfolding validate_create
  validate_create_iff p =
      let (to_parts, of_parts) = both_ok (mode_ok p.spec.mode) (
        both_ok (selector_ok p.spec.selector) (
          both_ok (provider_ok p.spec.metrics_config.provider) (
            both_ok (bound_ok Field.cpu p.spec.resource_bounds.cpu) (
              both_ok (bound_ok Field.memory p.spec.resource_bounds.memory) (
                both_ok (safety_factor_ok P p.spec.metrics_config.safety_factor)
                  (weight_ok p.spec.weight)))))) in
      (
        λ h.
            let (m, (s, (v, (c, (r, (f, w)))))) = to_parts h in
            record {
              mode = m;
              selector = s;
              provider = v;
              cpu_bound = c;
              memory_bound = r;
              safety_factor = f;
              weight = w;
            },
        λ v. of_parts (
          v.mode,
          (v.selector, (v.provider, (v.cpu_bound, (v.memory_bound, (v.safety_factor, v.weight))))),
        ),
      )
