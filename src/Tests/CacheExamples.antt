-- ===== src/Tests/CacheExamples.antt =====
-- The caches.
use optipod.Prelude.{◌≡◌, refl, String, ℕ, pos, ◌-ℤ◌, none, some, [], ◌∷◌, List, Result, ok}
use optipod.Cache.{get, get_or_compute}
use optipod.Cache.History.{
  Call, stored_at, invalidated, after, remembered, apply_all, answer, continued, get-after,
  get_or_compute-after,
}
use optipod.Cache.Containers.{MetricsCache}
use optipod.Cache.Containers.Isolated.{IsSame, IsReplaced, IsKept, set_metrics_isolated}
use optipod.Platform.Demo.{demo}
use optipod.Cache.Keys.{HasNoSlash}
use optipod.Tests.Data.{usage}

abbrev calls : List (Call ℕ)
calls = stored_at (pos 12) "b" 4 ∷ invalidated "a" ∷ stored_at (pos 10) "a" 3 ∷ []

get-after_example : get (pos 20) "b" (after (pos 9) calls) ≡ remembered (pos 9) (pos 20) "b" calls
get-after_example = get-after (pos 9) (pos 20) "b" calls

-- The entry is found at the end of its TTL.
found : remembered (pos 9) (pos 20) "b" calls ≡ some 4
unfolding ◌-ℤ◌
found = refl

expired : remembered (pos 9) (pos 22) "b" calls ≡ none
unfolding ◌-ℤ◌
expired = refl

dropped : remembered (pos 9) (pos 20) "a" calls ≡ none
dropped = refl

abbrev fetched : Result ℕ ℕ
fetched = ok 7

-- The key is invalidated while its value is computed.
get_or_compute-after_example :
    get_or_compute
      (pos 20)
      (pos 22)
      "a"
      fetched
      (apply_all (invalidated "a" ∷ []))
      (after (pos 9) calls)
    ≡ (
      answer (remembered (pos 9) (pos 20) "a" calls) fetched,
      after (pos 9) (
          continued
            (pos 22)
            "a"
            (remembered (pos 9) (pos 20) "a" calls)
            fetched
            (invalidated "a" ∷ [])
            calls),
    )
get_or_compute-after_example =
    get_or_compute-after (pos 9) (pos 20) (pos 22) "a" fetched (invalidated "a" ∷ []) calls

no_slash : HasNoSlash "ops"
no_slash = ((λ e. cc), ((λ e. cc), ((λ e. cc), tt)))

abbrev ops : String
ops = "ops"

abbrev main : String
main = "main"

abbrev db : String
db = "db"

abbrev measured : MetricsCache demo
measured = record { entries = []; ttl = pos 60 }

no_slash_db : HasNoSlash db
no_slash_db = ((λ e. cc), ((λ e. cc), tt))

set_metrics_isolated_example :
    (IsSame ops ops main ops db main
      → IsReplaced ops ops main ops db main (pos 5) (pos 1) usage measured)
    × (¬ IsSame ops ops main ops db main
        → IsKept ops ops main ops db main (pos 5) (pos 1) usage measured)
set_metrics_isolated_example =
    set_metrics_isolated ops ops main ops db main (pos 5) (pos 1) usage measured no_slash no_slash
      no_slash no_slash_db
