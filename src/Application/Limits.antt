-- ===== src/Application/Limits.antt =====
-- The limits that are set beside the requests: the engine's, and those of the annotations, which
-- internal/controller/workload_processor.go computes by code of its own.
use optipod.Prelude.{◌≡◌, refl, true, false, Option, none, some, value_or, if◌then◌else◌}
use optipod.Platform.{Platform}
use optipod.Api.Types.{OptimizationPolicy, LimitConfig}
use optipod.Recommendation.{is_decimal_si}

module _ (P : Platform) where
  open P use {
    Quantity, Float, format, milli_value, value, new_milli_quantity, new_quantity, of_int64,
    to_int64, mul, decimal,
  }

  -- The engine's copy of the function of the recommendation engine.
  unfoldable pub multiply_quantity : Quantity → Float → Quantity
  multiply_quantity q factor =
      if is_decimal_si (format q)
      then new_milli_quantity (to_int64 (mul (of_int64 (milli_value q)) factor)) (format q)
      else new_quantity (to_int64 (mul (of_int64 (value q)) factor)) (format q)

  -- The engine's multipliers: 1.0 and 1.1, unless the policy has its own.
  abbrev pub cpu_multiplier : Option (LimitConfig P) → Float
  cpu_multiplier none = decimal 1 0
  cpu_multiplier (some c) = value_or (decimal 1 0) c.cpu_limit_multiplier

  abbrev pub memory_multiplier : Option (LimitConfig P) → Float
  memory_multiplier none = decimal 11 1
  memory_multiplier (some c) = value_or (decimal 11 1) c.memory_limit_multiplier

  -- The workload processor's own copy of the defaults and of the choice.
  abbrev pub annotation_cpu_multiplier : Option (LimitConfig P) → Float
  annotation_cpu_multiplier none = decimal 1 0
  annotation_cpu_multiplier (some c) = value_or (decimal 1 0) c.cpu_limit_multiplier

  abbrev pub annotation_memory_multiplier : Option (LimitConfig P) → Float
  annotation_memory_multiplier none = decimal 11 1
  annotation_memory_multiplier (some c) = value_or (decimal 11 1) c.memory_limit_multiplier

  -- Millicores times the multiplier for CPU, and bytes times the multiplier for memory.
  abbrev pub scaled : Quantity → Quantity → Float → Float → Quantity × Quantity
  scaled cpu memory f g = (
    new_milli_quantity (to_int64 (mul (of_int64 (milli_value cpu)) f)) (format cpu),
    new_quantity (to_int64 (mul (of_int64 (value memory)) g)) (format memory),
  )

module _ {P : Platform} where
  open P use {
    Quantity, Float, format, milli_value, value, new_milli_quantity, new_quantity, of_int64,
    to_int64, mul,
  }

  unfoldable pub calculate_limits : Quantity → Quantity → OptimizationPolicy P → Quantity × Quantity
  unfolding multiply_quantity
  calculate_limits cpu memory p = (
    multiply_quantity P cpu (cpu_multiplier P p.spec.update_strategy.limit_config),
    multiply_quantity P memory (memory_multiplier P p.spec.update_strategy.limit_config),
  )

  -- Millicores for CPU and bytes for memory, whatever the formats.
  unfoldable pub calculate_limits_for_annotation :
      Quantity → Quantity → OptimizationPolicy P → Quantity × Quantity
  calculate_limits_for_annotation cpu memory p =
      let config = p.spec.update_strategy.limit_config in
      let scaled_cpu = mul (of_int64 (milli_value cpu)) (annotation_cpu_multiplier P config) in
      let scaled_memory = mul (of_int64 (value memory)) (annotation_memory_multiplier P config) in
      (
        new_milli_quantity (to_int64 scaled_cpu) (format cpu),
        new_quantity (to_int64 scaled_memory) (format memory),
      )

  -- The multiplier of a policy: the one that its configuration has, or the default.
  pub data IsMultiplier (default : Float) (field : LimitConfig P → Option Float)
      : Option (LimitConfig P) → Float → Type 0 where
    unconfigured : IsMultiplier default field none default
    unset : (c : LimitConfig P) → field c ≡ none → IsMultiplier default field (some c) default
    configured :
        (c : LimitConfig P) (f : Float) → field c ≡ some f → IsMultiplier default field (some c) f

  cpu_multipliers :
      (o : Option (LimitConfig P)) (f : Float)
      → IsMultiplier (P.decimal 1 0) (λ c. c.cpu_limit_multiplier) o f
      → (cpu_multiplier P o ≡ f) × (annotation_cpu_multiplier P o ≡ f)
  cpu_multipliers none f unconfigured = (refl, refl)
  cpu_multipliers (some c) f (unset _ h) = (rw h refl, rw h refl)
  cpu_multipliers (some c) f (configured _ _ h) = (rw h refl, rw h refl)

  memory_multipliers :
      (o : Option (LimitConfig P)) (f : Float)
      → IsMultiplier (P.decimal 11 1) (λ c. c.memory_limit_multiplier) o f
      → (memory_multiplier P o ≡ f) × (annotation_memory_multiplier P o ≡ f)
  memory_multipliers none f unconfigured = (refl, refl)
  memory_multipliers (some c) f (unset _ h) = (rw h refl, rw h refl)
  memory_multipliers (some c) f (configured _ _ h) = (rw h refl, rw h refl)

  -- For CPU in the decimal SI format and memory in another format, the limits that the engine sets
  -- and those that the annotations show are the same: the millicores times the CPU multiplier of the
  -- policy, 1.0 if it has none, and the bytes times its memory multiplier, 1.1 if it has none.
  pub limits_agree :
      (cpu memory : Quantity) (p : OptimizationPolicy P) (f g : Float)
      → is_decimal_si (format cpu) ≡ true
      → is_decimal_si (format memory) ≡ false
      → IsMultiplier
          (P.decimal 1 0)
          (λ c. c.cpu_limit_multiplier)
          p.spec.update_strategy.limit_config
          f
      → IsMultiplier
          (P.decimal 11 1)
          (λ c. c.memory_limit_multiplier)
          p.spec.update_strategy.limit_config
          g
      → (calculate_limits cpu memory p ≡ scaled P cpu memory f g)
        × (calculate_limits_for_annotation cpu memory p ≡ scaled P cpu memory f g)
  unfolding calculate_limits calculate_limits_for_annotation
  limits_agree cpu memory p f g h k i j =
      let (a, b) = cpu_multipliers p.spec.update_strategy.limit_config f i in
      let (c, d) = memory_multipliers p.spec.update_strategy.limit_config g j in
      (rw (h, k, a, c) refl, rw (b, d) refl)
