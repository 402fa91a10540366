-- ===== src/Controller/Processor/Annotations/Written.antt =====
-- What can be read back from the annotations.
use Prim.Native.Char.{Char}
use text.Mathlib.TextLemmas.{append_cancel_left}
use optipod.Prelude.{
  ◌≡◌, ◌≢◌, ◌⊎◌, refl, sym, ◌∙◌, String, str_eq, eq_iff, false, Option, none, some, List, [], ◌∷◌,
  ◌++◌, All, StrMap, lookup, insert, lookup-insert, arith, Bool-cases, inl, inr, Lacks, regroup,
  split_at,
}
use optipod.Platform.{Platform}
use optipod.Api.Types.{OptimizationPolicy, ContainerRecommendation}
use optipod.Application.Limits.{calculate_limits_for_annotation}
use optipod.Controller.Processor.Annotations.{
  annotation_key, annotation_recommendation_prefix, add_value, quantity_text, add_requests,
  add_limits_of, add_limits, annotate, annotation_managed, annotation_policy,
  annotation_last_recommendation,
}

abbrev dot : Char
dot = "."

-- A container's name is a DNS label: it holds no dot.
abbrev pub HasNoDot : String → Type 0
HasNoDot = Lacks dot

key_inj :
    (c d s t : String)
    → HasNoDot c
    → HasNoDot d
    → annotation_key c s ≡ annotation_key d t
    → (c ≡ d) × (s ≡ t)
key_inj c d s t h k e = split_at dot c d s t h k (
    regroup dot c s
    ∙ append_cancel_left "." _ _ (append_cancel_left annotation_recommendation_prefix _ _ e)
    ∙ sym (regroup dot d t))

-- A value for another container or under another suffix is not seen.
lookup-add_value_ne :
    (c d s t : String) (o : Option String) (m : StrMap String)
    → HasNoDot c
    → HasNoDot d
    → ((d ≢ c) ⊎ (t ≢ s))
    → lookup (annotation_key c s) (add_value d t o m) ≡ lookup (annotation_key c s) m
lookup-add_value_ne c d s t none m h k ne = refl
lookup-add_value_ne c d s t (some v) m h k ne = ground (
  arith,
  lookup-insert (annotation_key d t) (annotation_key c s) v m,
  eq_iff (annotation_key d t) (annotation_key c s),
  key_inj d c t s k h,
)

lookup-add_value :
    (c s v : String) (m : StrMap String)
    → lookup (annotation_key c s) (add_value c s (some v) m) ≡ some v
lookup-add_value c s v m = ground (
  arith,
  lookup-insert (annotation_key c s) (annotation_key c s) v m,
  eq_iff (annotation_key c s) (annotation_key c s),
)

-- Two texts that the test tells apart.
ne_of : (s t : String) → str_eq s t ≡ false → s ≢ t
ne_of s t h e = ground (arith, eq_iff s t)

module _ {P : Platform} where
  open P use {Quantity, to_string}

  -- The names of the containers hold no dot.
  abbrev pub HaveNoDot : List (ContainerRecommendation P) → Type 0
  HaveNoDot = All (λ r. HasNoDot r.container)

  -- No recommendation of the list is for the container.
  abbrev pub Others : String → List (ContainerRecommendation P) → Type 0
  Others c = All (λ r. r.container ≢ c)

  abbrev add_requests_of : ContainerRecommendation P → StrMap String → StrMap String
  add_requests_of r m =
      add_value r.container "memory-request" (quantity_text P r.memory)
        (add_value r.container "cpu-request" (quantity_text P r.cpu) m)

  lookup-add_requests_ne :
      (c s : String) (recs : List (ContainerRecommendation P)) (m : StrMap String)
      → HasNoDot c
      → HaveNoDot recs
      → Others c recs
      → lookup (annotation_key c s) (add_requests recs m) ≡ lookup (annotation_key c s) m
  unfolding add_requests
  lookup-add_requests_ne c s [] m h k o = refl
  lookup-add_requests_ne c s (r ∷ rest) m h k o =
      lookup-add_requests_ne c s rest (add_requests_of r m) h k.1 o.1
      ∙ lookup-add_value_ne c r.container s "memory-request" (quantity_text P r.memory)
          (add_value r.container "cpu-request" (quantity_text P r.cpu) m) h k.0 (inl o.0)
      ∙ lookup-add_value_ne c r.container s "cpu-request" (quantity_text P r.cpu) m h k.0 (inl o.0)

  lookup-add_limits_of_ne :
      (c d s : String) (p : OptimizationPolicy P) (cpu memory : Option Quantity) (m : StrMap String)
      → HasNoDot c
      → HasNoDot d
      → "cpu-limit" ≢ s
      → "memory-limit" ≢ s
      → lookup (annotation_key c s) (add_limits_of p d cpu memory m) ≡ lookup (annotation_key c s) m
  unfolding add_limits_of
  lookup-add_limits_of_ne c d s p none memory m h k a b = refl
  lookup-add_limits_of_ne c d s p (some q) none m h k a b = refl
  lookup-add_limits_of_ne c d s p (some q) (some r) m h k a b =
      let limits = calculate_limits_for_annotation q r p in
      lookup-add_value_ne c d s "memory-limit" (some (to_string (limits.1)))
        (add_value d "cpu-limit" (some (to_string (limits.0))) m) h k (inr b)
      ∙ lookup-add_value_ne c d s "cpu-limit" (some (to_string (limits.0))) m h k (inr a)

  lookup-add_limits_ne :
      (c s : String) (p : OptimizationPolicy P) (recs : List (ContainerRecommendation P))
      (m : StrMap String)
      → HasNoDot c
      → HaveNoDot recs
      → "cpu-limit" ≢ s
      → "memory-limit" ≢ s
      → lookup (annotation_key c s) (add_limits p recs m) ≡ lookup (annotation_key c s) m
  unfolding add_limits
  lookup-add_limits_ne c s p [] m h k a b = refl
  lookup-add_limits_ne c s p (r ∷ rest) m h k a b =
      lookup-add_limits_ne c s p rest (add_limits_of p r.container r.cpu r.memory m) h k.1 a b
      ∙ lookup-add_limits_of_ne c r.container s p r.cpu r.memory m h k.0 a b

  -- The requests of a recommendation whose container none of the later ones names.
  lookup-add_requests :
      (before after : List (ContainerRecommendation P)) (r : ContainerRecommendation P)
      (cpu memory : Quantity) (m : StrMap String)
      → HasNoDot r.container
      → HaveNoDot after
      → Others r.container after
      → r.cpu ≡ some cpu
      → r.memory ≡ some memory
      → (lookup (annotation_key r.container "cpu-request") (add_requests (before ++ (r ∷ after)) m)
          ≡ some (to_string cpu))
        × (lookup
              (annotation_key r.container "memory-request")
              (add_requests (before ++ (r ∷ after)) m)
            ≡ some (to_string memory))
  unfolding add_requests
  lookup-add_requests [] after r cpu memory m h k o a b = (
    lookup-add_requests_ne r.container "cpu-request" after (add_requests_of r m) h k o
        ∙ lookup-add_value_ne r.container r.container "cpu-request" "memory-request"
            (quantity_text P r.memory)
            (add_value r.container "cpu-request" (quantity_text P r.cpu) m) h h
            (inr (ne_of "memory-request" "cpu-request" refl))
        ∙ rw a (lookup-add_value r.container "cpu-request" (to_string cpu) m),
    lookup-add_requests_ne r.container "memory-request" after (add_requests_of r m) h k o
        ∙ rw b (
            lookup-add_value r.container "memory-request" (to_string memory)
              (add_value r.container "cpu-request" (quantity_text P r.cpu) m)),
  )
  lookup-add_requests (x ∷ before) after r cpu memory m h k o a b =
      lookup-add_requests before after r cpu memory (add_requests_of x m) h k o a b

  ends_HaveNoDot :
      (before after : List (ContainerRecommendation P)) (r : ContainerRecommendation P)
      → HaveNoDot (before ++ (r ∷ after))
      → HasNoDot r.container × HaveNoDot after
  ends_HaveNoDot [] after r k = (k.0, k.1)
  ends_HaveNoDot (x ∷ before) after r k = ends_HaveNoDot before after r k.1

  -- What is written is read back: the annotations hold, under the key of a container's CPU request
  -- and memory request, the texts of the quantities of the last recommendation for this container,
  -- whatever was there and whether limits are written too. The containers' names hold no dot.
  pub lookup-annotate :
      (p : OptimizationPolicy P) (before after : List (ContainerRecommendation P))
      (r : ContainerRecommendation P) (cpu memory : Quantity) (now : String) (m : StrMap String)
      → HaveNoDot (before ++ (r ∷ after))
      → Others r.container after
      → r.cpu ≡ some cpu
      → r.memory ≡ some memory
      → (lookup
            (annotation_key r.container "cpu-request")
            (annotate p (before ++ (r ∷ after)) now m)
          ≡ some (to_string cpu))
        × (lookup
              (annotation_key r.container "memory-request")
              (annotate p (before ++ (r ∷ after)) now m)
            ≡ some (to_string memory))
  unfolding annotate add_limits calculate_limits_for_annotation
  lookup-annotate p before after r cpu memory now m k o a b =
      let managed =
        insert annotation_last_recommendation now
          (insert annotation_policy p.name (insert annotation_managed "true" m)) in
      let ends = ends_HaveNoDot before after r k in
      let (of_cpu, of_memory) =
        lookup-add_requests before after r cpu memory managed ends.0 ends.1 o a b in
      let kept : (s : String)
          → "cpu-limit" ≢ s
          → "memory-limit" ≢ s
          → lookup (annotation_key r.container s)
              (add_limits p (before ++ (r ∷ after)) (add_requests (before ++ (r ∷ after)) managed))
            ≡ lookup (annotation_key r.container s) (add_requests (before ++ (r ∷ after)) managed) =
        λ s x y.
          lookup-add_limits_ne r.container s p (before ++ (r ∷ after))
            (add_requests (before ++ (r ∷ after)) managed) ends.0 k x y in
      elim (Bool-cases p.spec.update_strategy.update_requests_only) [
        | inl only ↦ rw (only, annotate) (of_cpu, of_memory)
        | inr limits ↦
            rw (limits, annotate)
              (
                kept "cpu-request" (ne_of "cpu-limit" "cpu-request" refl)
                      (ne_of "memory-limit" "cpu-request" refl)
                    ∙ of_cpu,
                kept "memory-request" (ne_of "cpu-limit" "memory-request" refl)
                      (ne_of "memory-limit" "memory-request" refl)
                    ∙ of_memory,
              )
      ]
