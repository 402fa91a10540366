-- ===== src/Cache/History.antt =====
-- The cache against an ideal one that remembers every call.
use optipod.Prelude.{
  ◌≡◌, refl, ap, ltb_ℤ, ◌-ℤ◌, String, str_eq, Option, none, some, [], ◌∷◌, ◌++◌, List, lookup,
  lookup-insert, lookup-delete, Result, ok, err, arith, if◌then◌else◌,
}
use optipod.Api.Types.{Time, Duration}
use optipod.Cache.{Cache, new_cache, get, set, invalidate, invalidate_all, get_or_compute}

pub data Call {ℓ} (V : Type ℓ) : Type ℓ where
  stored_at : Time → String → V → Call V
  invalidated : String → Call V
  cleared : Call V

module _ {ℓ} {V : Type ℓ} where
  abbrev pub apply : Call V → Cache V → Cache V
  apply (stored_at t k v) c = set t k v c
  apply (invalidated k) c = invalidate k c
  apply cleared c = invalidate_all c

  -- The cache after some calls, the latest first.
  abbrev pub after : Duration → List (Call V) → Cache V
  after ttl [] = new_cache ttl
  after ttl (call ∷ earlier) = apply call (after ttl earlier)

  -- What the calls say: the value stored last for the key, unless the key was invalidated or the
  -- cache cleared since, or more than the TTL has passed.
  abbrev pub remembered : Duration → Time → String → List (Call V) → Option V
  remembered ttl now k [] = none
  remembered ttl now k (stored_at t j v ∷ earlier) =
      if str_eq j k
      then (if ltb_ℤ ttl (now -ℤ t) then none else some v)
      else remembered ttl now k earlier
  remembered ttl now k (invalidated j ∷ earlier) =
      if str_eq j k then none else remembered ttl now k earlier
  remembered ttl now k (cleared ∷ earlier) = none

  ttl-after : (ttl : Duration) (calls : List (Call V)) → (after ttl calls).ttl ≡ ttl
  unfolding new_cache set invalidate invalidate_all
  ttl-after ttl [] = refl
  ttl-after ttl (stored_at t k v ∷ calls) = ttl-after ttl calls
  ttl-after ttl (invalidated k ∷ calls) = ttl-after ttl calls
  ttl-after ttl (cleared ∷ calls) = ttl-after ttl calls

  -- After any calls, at any time, the cache returns exactly what the calls say it should.
  pub get-after :
      (ttl : Duration) (now : Time) (k : String) (calls : List (Call V))
      → get now k (after ttl calls) ≡ remembered ttl now k calls
  unfolding get set invalidate invalidate_all new_cache lookup
  get-after ttl now k [] = refl
  get-after ttl now k (stored_at t j v ∷ calls) = ground (
    arith,
    lookup-insert j k (record { stored = v; timestamp = t }) (after ttl calls).entries,
    ttl-after ttl calls,
    get-after ttl now k calls,
  )
  get-after ttl now k (invalidated j ∷ calls) =
      ground (arith, lookup-delete j k (after ttl calls).entries, get-after ttl now k calls)
  get-after ttl now k (cleared ∷ calls) = refl

  pub get-set :
      (t now : Time) (k j : String) (v : V) (c : Cache V)
      → get now j (set t k v c)
        ≡ (if str_eq k j then (if ltb_ℤ c.ttl (now -ℤ t) then none else some v) else get now j c)
  unfolding get set
  get-set t now k j v c =
      ground (arith, lookup-insert k j (record { stored = v; timestamp = t }) c.entries)

  -- Some calls on a cache, the latest first.
  abbrev pub apply_all : List (Call V) → Cache V → Cache V
  apply_all [] c = c
  apply_all (call ∷ earlier) c = apply call (apply_all earlier c)

  apply_all-after :
      (ttl : Duration) (more calls : List (Call V))
      → apply_all more (after ttl calls) ≡ after ttl (more ++ calls)
  apply_all-after ttl [] calls = refl
  apply_all-after ttl (call ∷ more) calls = ap (apply call) (apply_all-after ttl more calls)

  -- The answer of a call that looks up or computes, by what is remembered when it looks.
  abbrev pub answer {κ} : {E : Type κ} → Option V → Result E V → Result E V
  answer (some v) fetched = ok v
  answer none fetched = fetched

  -- The history after such a call, with the calls that others make while it computes: a hit leaves
  -- no time for them, and a computed value is stored after them.
  abbrev pub continued {κ} :
      {E : Type κ}
      → Time
      → String
      → Option V
      → Result E V
      → List (Call V)
      → List (Call V)
      → List (Call V)
  continued later k (some v) fetched between before = before
  continued later k none (ok v) between before = stored_at later k v ∷ (between ++ before)
  continued later k none (err e) between before = between ++ before

  looked_up {κ} :
      {E : Type κ} (ttl : Duration) (now later : Time) (k : String) (fetched : Result E V)
      (between before : List (Call V)) (o : Option V)
      → get now k (after ttl before) ≡ o
      → get_or_compute now later k fetched (apply_all between) (after ttl before)
        ≡ (answer o fetched, after ttl (continued later k o fetched between before))
  unfolding get_or_compute
  looked_up ttl now later k fetched between before (some v) h = rw (h, get_or_compute) refl
  looked_up ttl now later k (ok v) between before none h =
      rw (h, get_or_compute, apply_all-after ttl between before) refl
  looked_up ttl now later k (err e) between before none h =
      rw (h, get_or_compute, apply_all-after ttl between before) refl

  -- After any calls, a call that looks up or computes, whatever calls others make while it computes,
  -- answers the remembered value, and without one what was computed. It leaves the cache of the
  -- history in which, without a remembered value, first the calls of the others and then the storing
  -- of the computed value are added, or only those of the others where computing fails.
  pub get_or_compute-after {κ} :
      {E : Type κ} (ttl : Duration) (now later : Time) (k : String) (fetched : Result E V)
      (between before : List (Call V))
      → let known = remembered ttl now k before in
        get_or_compute now later k fetched (apply_all between) (after ttl before)
        ≡ (answer known fetched, after ttl (continued later k known fetched between before))
  get_or_compute-after ttl now later k fetched between before =
      looked_up ttl now later k fetched between before _ (get-after ttl now k before)
