-- ===== src/Cache/Containers/Isolated.antt =====
-- The metrics of one container do not meddle with those of another.
use optipod.Prelude.{
  ◌≡◌, refl, ◌∙◌, ◌-ℤ◌, ltb_ℤ, String, str_eq, eq_iff, true, false, Bool-cases, inl, inr, none,
  some, lookup-delete, arith, if◌then◌else◌,
}
use optipod.Platform.{Platform}
use optipod.Api.Types.{Time}
use optipod.Metrics.{ContainerMetrics}
use optipod.Cache.{Cache, get, set, invalidate, get_metrics_key}
use optipod.Cache.History.{get-set}
use optipod.Cache.Keys.{HasNoSlash, get_metrics_key-injective}
use optipod.Cache.Containers.{MetricsCache, get_metrics, set_metrics, invalidate_metrics}

get-invalidate :
    {V : Type 0} (now : Time) (k j : String) (c : Cache V)
    → get now j (invalidate k c) ≡ (if str_eq k j then none else get now j c)
unfolding get invalidate
get-invalidate now k j c = ground (arith, lookup-delete k j c.entries)

module _ {V : Type 0} (now t : Time) (k j : String) (v : V) (c : Cache V) where
  by_key :
      str_eq k j ≡ true
      → (get now j (set t k v c) ≡ (if ltb_ℤ c.ttl (now -ℤ t) then none else some v))
        × (get now j (invalidate k c) ≡ none)
  by_key e = (get-set t now k j v c ∙ rw e refl, get-invalidate now k j c ∙ rw e refl)

  by_other_key :
      str_eq k j ≡ false
      → (get now j (set t k v c) ≡ get now j c) × (get now j (invalidate k c) ≡ get now j c)
  by_other_key e = (get-set t now k j v c ∙ rw e refl, get-invalidate now k j c ∙ rw e refl)

module _ (n p c n' p' c' : String) where
  -- The same container.
  abbrev pub IsSame : Type 0
  IsSame = (n ≡ n') × (p ≡ p') × (c ≡ c')

  module _ {P : Platform} (now t : Time) (m : ContainerMetrics P) (cache : MetricsCache P) where
    -- What is then found for the container: what was stored, until it expires, and nothing after an
    -- invalidation.
    abbrev pub IsReplaced : Type 0
    IsReplaced =
        (get_metrics now n' p' c' (set_metrics t n p c m cache)
          ≡ (if ltb_ℤ cache.ttl (now -ℤ t) then none else some m))
        × (get_metrics now n' p' c' (invalidate_metrics n p c cache) ≡ none)

    -- What is found for another container: what was found before.
    abbrev pub IsKept : Type 0
    IsKept =
        (get_metrics now n' p' c' (set_metrics t n p c m cache) ≡ get_metrics now n' p' c' cache)
        × (get_metrics now n' p' c' (invalidate_metrics n p c cache)
            ≡ get_metrics now n' p' c' cache)

    -- Metrics that are stored or invalidated for a container are stored or invalidated for that
    -- container and for no other, if the names of the namespaces and pods hold no slash.
    pub set_metrics_isolated :
        HasNoSlash n
        → HasNoSlash n'
        → HasNoSlash p
        → HasNoSlash p'
        → (IsSame → IsReplaced) × (¬ IsSame → IsKept)
    unfolding get_metrics set_metrics invalidate_metrics
    set_metrics_isolated hn hn' hp hp' =
        elim (Bool-cases (str_eq (get_metrics_key n p c) (get_metrics_key n' p' c'))) [
          | inl equal ↦
              let same : IsSame =
                get_metrics_key-injective n p c n' p' c' hn hn' hp hp' (equal_keys equal) in
              (λ s. by_key now t _ _ m cache equal, λ other. absurd (other same))
          | inr different ↦ (
            λ s. absurd (different_keys different s),
            λ other. by_other_key now t _ _ m cache different,
          )
        ]
      where
        equal_keys :
            str_eq (get_metrics_key n p c) (get_metrics_key n' p' c') ≡ true
            → get_metrics_key n p c ≡ get_metrics_key n' p' c'
        equal_keys e = ground (arith, eq_iff (get_metrics_key n p c) (get_metrics_key n' p' c'))

        different_keys :
            str_eq (get_metrics_key n p c) (get_metrics_key n' p' c') ≡ false → ¬ IsSame
        different_keys e s =
            let same : get_metrics_key n p c ≡ get_metrics_key n' p' c' = rw (s.0, s.1, s.2) refl in
            ground (arith, eq_iff (get_metrics_key n p c) (get_metrics_key n' p' c'))
