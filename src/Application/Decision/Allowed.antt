-- ===== src/Application/Decision/Allowed.antt =====
-- When `CanApply` decides for a change.
use optipod.Prelude.{
  ◌≡◌, ◌≢◌, ◌⊎◌, eq_iff, Bool, true, false, Option, ◌&&◌, StrMap, ok, ◌>>=◌, map_err, bind_ok,
  map_err_ok, arith, Bool-cases, inl, inr,
}
use optipod.Platform.{Platform}
use optipod.Api.Types.{OptimizationPolicy, mode_recommend, mode_disabled}
use optipod.Recommendation.{Recommendation}
use optipod.Application.Values.{AppWorkload}
use optipod.Application.Version.{VersionInfo, detect_in_place_resize}
use optipod.Application.Resources.{
  ResourceRequirements, get_current_resources, is_unsafe_memory_decrease,
}
use optipod.Application.Decision.{
  ApplyMethod, in_place, recreate, ApplyDecision, resources_failed, detection_failed, EngineConfig,
  ok_decision, choose_method, decide, can_apply,
}

module _ {P : Platform} where
  -- What allows a change: the policy is in neither of the two passive modes, there is no dry run,
  -- the resources can be read and no memory limit is above the recommendation, the version of the
  -- server can be read, and the policy allows a strategy that the server has.
  pub record IsAllowed (e : EngineConfig) (w : AppWorkload) (rec : Recommendation P)
      (p : OptimizationPolicy P) (m : ApplyMethod) : Type 0 where
    pub not_recommend : p.spec.mode ≢ mode_recommend
    pub not_disabled : p.spec.mode ≢ mode_disabled
    pub no_dry_run : e.dry_run ≡ false
    pub current : StrMap (ResourceRequirements P)
    pub read : get_current_resources e.accessors w ≡ ok current
    pub safe : is_unsafe_memory_decrease current rec ≡ false
    pub supported : Bool
    pub detected : detect_in_place_resize e.server_version ≡ ok supported
    pub strategy :
        ((m ≡ in_place)
          × (supported ≡ true)
          × (p.spec.update_strategy.allow_in_place_resize ≡ true))
        ⊎ ((m ≡ recreate)
            × ((supported && p.spec.update_strategy.allow_in_place_resize) ≡ false)
            × (p.spec.update_strategy.allow_recreate ≡ true))

  -- The early returns: what is left is the reading of the resources and the decision on them.
  passed :
      (e : EngineConfig) (w : AppWorkload) (rec : Recommendation P) (p : OptimizationPolicy P)
      (d : ApplyDecision)
      → can_apply e w rec p ≡ ok d
      → d.can_apply ≡ true
      → (p.spec.mode ≢ mode_recommend)
        × (p.spec.mode ≢ mode_disabled)
        × (e.dry_run ≡ false)
        × ((map_err resources_failed (get_current_resources e.accessors w) >>= λ current.
              decide e.server_version rec p current)
            ≡ ok d)
  unfolding can_apply
  passed e w rec p d h k =
      ground (arith, eq_iff p.spec.mode mode_recommend, eq_iff p.spec.mode mode_disabled)

  decide_ok :
      (server : Option VersionInfo) (rec : Recommendation P) (p : OptimizationPolicy P)
      (current : StrMap (ResourceRequirements P)) (d : ApplyDecision)
      → decide server rec p current ≡ ok d
      → d.can_apply ≡ true
      → (is_unsafe_memory_decrease current rec ≡ false)
        × (supported : Bool) × (detect_in_place_resize server ≡ ok supported)
        × (choose_method supported p ≡ d)
  unfolding decide
  decide_ok server rec p current d h k = elim (Bool-cases (is_unsafe_memory_decrease current rec)) [
    | inl unsafe ↦ ground (arith)
    | inr safe ↦
        let tested = bind_ok _ _ (still safe) in
        (safe, tested.0, map_err_ok detection_failed _ tested.1, same tested.2)
  ]
    where
      still :
          is_unsafe_memory_decrease current rec ≡ false
          → (map_err detection_failed (detect_in_place_resize server) >>= λ supported.
              ok (choose_method supported p))
            ≡ ok d
      still safe = ground (arith)

      same : {c : ApplyDecision} → ok_decision c ≡ ok_decision d → c ≡ d
      same q = cc

  chosen :
      (supported : Bool) (p : OptimizationPolicy P) {d : ApplyDecision}
      → choose_method supported p ≡ d
      → d.can_apply ≡ true
      → ((d.method ≡ in_place)
          × (supported ≡ true)
          × (p.spec.update_strategy.allow_in_place_resize ≡ true))
        ⊎ ((d.method ≡ recreate)
            × ((supported && p.spec.update_strategy.allow_in_place_resize) ≡ false)
            × (p.spec.update_strategy.allow_recreate ≡ true))
  unfolding choose_method
  chosen supported p h k = ground (arith)

  -- A positive decision is made only where the change is allowed, for the method that it names.
  pub can_apply-IsAllowed :
      (e : EngineConfig) (w : AppWorkload) (rec : Recommendation P) (p : OptimizationPolicy P)
      (d : ApplyDecision)
      → can_apply e w rec p ≡ ok d
      → d.can_apply ≡ true
      → IsAllowed e w rec p d.method
  can_apply-IsAllowed e w rec p d h k =
      let stages = passed e w rec p d h k in
      let found = bind_ok _ _ stages.3 in
      let judged = decide_ok e.server_version rec p found.0 d found.2 k in
      record {
        not_recommend = stages.0;
        not_disabled = stages.1;
        no_dry_run = stages.2;
        current = found.0;
        read = map_err_ok resources_failed _ (found.1);
        safe = judged.0;
        supported = judged.1;
        detected = judged.2;
        strategy = chosen judged.1 p judged.3 k;
      }

  offered :
      (supported : Bool) (p : OptimizationPolicy P) {m : ApplyMethod}
      → ((m ≡ in_place)
          × (supported ≡ true)
          × (p.spec.update_strategy.allow_in_place_resize ≡ true))
        ⊎ ((m ≡ recreate)
            × ((supported && p.spec.update_strategy.allow_in_place_resize) ≡ false)
            × (p.spec.update_strategy.allow_recreate ≡ true))
      → ((choose_method supported p).can_apply ≡ true) × ((choose_method supported p).method ≡ m)
  unfolding choose_method
  offered supported p h = ground (arith)

  reach :
      (e : EngineConfig) (w : AppWorkload) (rec : Recommendation P) (p : OptimizationPolicy P)
      (m : ApplyMethod) (a : IsAllowed e w rec p m)
      → can_apply e w rec p ≡ ok (choose_method a.supported p)
  unfolding can_apply decide
  reach e w rec p m a = ground (
    arith,
    eq_iff p.spec.mode mode_recommend,
    eq_iff p.spec.mode mode_disabled,
    a.no_dry_run,
    a.read,
    a.safe,
    a.detected,
  )

  -- Where the change is allowed for a method, the decision is positive and names that method.
  pub can_apply_complete :
      (e : EngineConfig) (w : AppWorkload) (rec : Recommendation P) (p : OptimizationPolicy P)
      (m : ApplyMethod)
      → IsAllowed e w rec p m
      → (d : ApplyDecision) × (can_apply e w rec p ≡ ok d) × (d.can_apply ≡ true) × (d.method ≡ m)
  can_apply_complete e w rec p m a = (
    choose_method a.supported p,
    reach e w rec p m a,
    (offered a.supported p a.strategy).0,
    (offered a.supported p a.strategy).1,
  )
