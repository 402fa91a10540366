-- ===== src/Metrics/Prometheus/Windows.antt =====
-- The window that a query names.
use optipod.Prelude.{
  ◌≡◌, refl, ℕ, suc, ◌*◌, ◌/◌, ◌<◌, ◌≤◌, pos, ltb_ℤ, true, false, Bool-cases, inl, inr, arith,
}
use optipod.Metrics.Prometheus.{
  PromUnit, in_seconds, in_minutes, in_hours, in_days, PromDuration, format_seconds,
}

abbrev pub unit_seconds : PromUnit → ℕ
unit_seconds in_seconds = 1
unit_seconds in_minutes = 60
unit_seconds in_hours = 3600
unit_seconds in_days = 86400

-- The unit is the largest of which there is a whole one.
abbrev pub Fits : PromUnit → ℕ → Type 0
Fits in_seconds n = n < 60
Fits in_minutes n = (60 ≤ n) × (n < 3600)
Fits in_hours n = (3600 ≤ n) × (n < 86400)
Fits in_days n = 86400 ≤ n

-- The window, rounded down to its unit.
pub record IsRoundedDown (n : ℕ) (d : PromDuration) : Type 0 where
  pub number : ℕ
  pub same : d.number ≡ pos number
  pub at_most : number * unit_seconds d.unit ≤ n
  pub less_than_one_more : n < suc number * unit_seconds d.unit
  pub fits : Fits d.unit n

below : (a b : ℕ) → ltb_ℤ (pos a) (pos b) ≡ true → a < b
below a b h = ground arith

not_below : (a b : ℕ) → ltb_ℤ (pos a) (pos b) ≡ false → b ≤ a
not_below a b h = ground arith

rounded :
    (n k : ℕ) (u : PromUnit)
    → k * unit_seconds u ≤ n
    → n < suc k * unit_seconds u
    → Fits u n
    → IsRoundedDown n (record { number = pos k; unit = u })
rounded n k u l m p = record {
  number = k;
  same = refl;
  at_most = l;
  less_than_one_more = m;
  fits = p;
}

-- The duration in a query is the number of seconds, rounded down: to whole minutes from one minute
-- on, to whole hours from one hour on, and to whole days from one day on.
pub format_seconds-IsRoundedDown : (n : ℕ) → IsRoundedDown n (format_seconds (pos n))
unfolding format_seconds
format_seconds-IsRoundedDown n = elim (Bool-cases (ltb_ℤ (pos n) (pos 60))) [
  | inl few ↦
      let l = below n 60 few in
      rw (few, format_seconds) (rounded n n in_seconds (omega arith) (omega arith) l)
  | inr minutes ↦
      let m = not_below n 60 minutes in
      elim (Bool-cases (ltb_ℤ (pos (n / 60)) (pos 60))) [
        | inl few ↦
            let l = below (n / 60) 60 few in
            rw (minutes, few, format_seconds)
              (rounded n (n / 60) in_minutes (omega arith) (omega arith) (omega arith, omega arith))
        | inr hours ↦
            let h = not_below (n / 60) 60 hours in
            elim (Bool-cases (ltb_ℤ (pos (n / 60 / 60)) (pos 24))) [
              | inl few ↦
                  let l = below (n / 60 / 60) 24 few in
                  rw (minutes, hours, few, format_seconds)
                    (rounded n (n / 60 / 60) in_hours (omega arith) (omega arith)
                      (omega arith, omega arith))
              | inr days ↦
                  let d = not_below (n / 60 / 60) 24 days in
                  rw (minutes, hours, days, format_seconds)
                    (rounded n (n / 60 / 60 / 24) in_days (omega arith) (omega arith) (omega arith))
            ]
      ]
]
