-- ===== src/Subscriptions/Period/Calendar.antt =====
-- The Gregorian calendar from 1970 on, in months and days since its first.
use limpeja_backend.Common.{
  ℕ, zero, suc, ◌+◌, ◌-◌, ◌*◌, ◌/◌, ◌%◌, ◌≤◌, ◌<◌, ltb, Bool, not, ◌&&◌, ◌||◌, ◌==◌, arith, inl,
  inr, Bool-cases, if◌then◌else◌,
}

abbrev pub is_leap : ℕ → Bool
is_leap y = y % 4 == 0 && (not (y % 100 == 0) || y % 400 == 0)

-- The days of a month, from 0 for January.
abbrev pub days_in : ℕ → Bool → ℕ
days_in m leap =
    if m == 1
    then (if leap then 29 else 28)
    else if m == 3 || (m == 5 || (m == 8 || m == 10))
    then 30
    else 31

unfoldable pub month_days : ℕ → ℕ
month_days m = days_in (m % 12) (is_leap (1970 + m / 12))

-- The first day of a month.
unfoldable pub month_start : ℕ → ℕ
month_start zero = 0
month_start (suc m) = month_start m + month_days m

-- The month of the day that is `rest` days after the first of month `m`.
unfoldable pub month_from : ℕ → ℕ → ℕ → ℕ
month_from zero m rest = m
month_from (suc fuel) m rest =
    let later = month_from fuel (suc m) (rest - month_days m) in
    if ltb rest (month_days m) then m else later

-- Every month has 28 days at least, so that the steps are enough.
unfoldable pub month_of : ℕ → ℕ
month_of day = month_from (suc (day / 28)) 0 day

-- `getUTCFullYear`, in years since 1970.
unfoldable pub year_of : ℕ → ℕ
year_of day = month_of day / 12

-- `Date.UTC(year, 0, 1)`
abbrev pub new_year : ℕ → ℕ
new_year y = month_start (12 * y)

pub month_days-least : (m : ℕ) → 28 ≤ month_days m
unfolding month_days
month_days-least m = ground arith

month_from_lem :
    (fuel m rest : ℕ)
    → rest < fuel * 28
    → let found = month_from fuel m rest in
      month_start found ≤ month_start m + rest × month_start m + rest < month_start (suc found)
unfolding month_from month_start
month_from_lem zero m rest h = absurd (omega arith)
month_from_lem (suc fuel) m rest h =
    let least = month_days-least m in
    elim (Bool-cases (ltb rest (month_days m))) [
      | inl e ↦ rw e (omega arith, ground arith)
      | inr e ↦
          let next = month_from_lem fuel (suc m) (rest - month_days m) (ground arith) in
          rw e (ground (arith, next))
    ]

-- The month that is found has the day.
pub month_of_lem :
    (day : ℕ) → month_start (month_of day) ≤ day × day < month_start (suc (month_of day))
unfolding month_of month_start
month_of_lem day =
    let found = month_from_lem (suc (day / 28)) 0 day (omega arith) in ground (arith, found)
