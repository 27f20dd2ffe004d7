-- ===== src/Subscriptions/Period/Laws.antt =====
-- The periods of two runs in a row differ: `buildSubscriptionPeriodId`, `getIsoWeekNumber` and
-- `calculateNextGenerationDate` of subscriptions/subscriptions.service.ts.
use limpeja_backend.Common.{
  ℕ, zero, suc, ◌+◌, ◌-◌, ◌*◌, ◌/◌, ◌%◌, ◌≤◌, ◌<◌, ◌≡◌, ap, ltb, leb, false, ◌==◌, arith, inl, inr,
  Bool-cases, ◌⊎◌,
}
use limpeja_backend.Subscriptions.Period.Calendar.{
  month_days, month_days-least, month_start, month_of, month_of_lem, year_of, new_year,
}
use limpeja_backend.Subscriptions.Period.{
  Frequency, weekly, bi_weekly, monthly, day_ms, thursday, iso_week, period_number, period_eq,
  build_period_id, period_on, next_generation,
}

month_start-grow : (n m : ℕ) → m ≤ n → month_start m + 28 * (n - m) ≤ month_start n
unfolding month_start
month_start-grow zero zero h = omega arith
month_start-grow zero (suc m) h = absurd (omega arith)
month_start-grow (suc n) m h = elim (Bool-cases (leb m n)) [
  | inl e ↦
      let below : m ≤ n = ground arith in
      let rest = month_start-grow n m below in let least = month_days-least n in omega arith
  | inr e ↦ let top : m ≡ suc n = ground arith in rw top (omega arith)
]

month_days-most : (m : ℕ) → month_days m ≤ 31
unfolding month_days
month_days-most m = ground arith

-- A month later is the next month, or the one after it, if the next is too short.
pub month_of-next :
    (day : ℕ)
    → let next = month_of (day + month_days (month_of day)) in
      suc (month_of day) ≤ next × next ≤ month_of day + 2
unfolding month_start
month_of-next day =
    let m = month_of day in
    let next = month_of (day + month_days m) in
    let (low, high) = month_of_lem day in
    let (low2, high2) = month_of_lem (day + month_days m) in
    let most = month_days-most m in
    let least1 = month_days-least (suc m) in
    let least2 = month_days-least (suc (suc m)) in
    (
      elim (Bool-cases (leb next m)) [
        | inl e ↦
            let below : suc next ≤ suc m = ground arith in
            let up = month_start-grow (suc m) (suc next) below in absurd (omega arith)
        | inr e ↦ ground arith
      ],
      elim (Bool-cases (leb (suc (suc (suc m))) next)) [
        | inl e ↦
            let above : suc (suc (suc m)) ≤ next = ground arith in
            let up = month_start-grow next (suc (suc (suc m))) above in absurd (omega arith)
        | inr e ↦ ground arith
      ],
    )

-- A year has its days.
pub year_of_lem : (day : ℕ) → new_year (year_of day) ≤ day × day < new_year (suc (year_of day))
unfolding year_of
year_of_lem day =
    let (low, high) = month_of_lem day in
    let m = month_of day in
    let from = month_start-grow m (12 * (m / 12)) (omega arith) in
    let to = month_start-grow (12 * suc (m / 12)) (suc m) (omega arith) in
    (omega arith, omega arith)

new_year-grow : (y z : ℕ) → y < z → new_year y + 336 ≤ new_year z
new_year-grow y z h = let up = month_start-grow (12 * z) (12 * y) (omega arith) in omega arith

abbrev week_from : ℕ → ℕ → ℕ
week_from t first = 1 + (2 * t + 7 - 2 * (first + 3)) / 14

week_from-later :
    (t n a b : ℕ)
    → 1 ≤ n
    → n ≤ 2
    → a ≤ t
    → (a ≡ b) ⊎ ((a + 336 ≤ b) × (t < b) × (b ≤ t + 7 * n))
    → (week_from (t + 7 * n) b ≡ week_from t a + n) ⊎ (week_from (t + 7 * n) b + 30 ≤ week_from t a)
week_from-later t n a b least most low (inl e) = inl (rw e (omega arith))
week_from-later t n a b least most low (inr (far, over, reached)) = inr (omega arith)

thursday-later : (day n : ℕ) → thursday (day + 7 * n) ≡ thursday day + 7 * n
thursday-later day n = omega arith

year-cases :
    (t u : ℕ)
    → t ≤ u
    → (new_year (year_of t) ≡ new_year (year_of u))
      ⊎ ((new_year (year_of t) + 336 ≤ new_year (year_of u))
          × (t < new_year (year_of u))
          × (new_year (year_of u) ≤ u))
year-cases t u h =
    let y = year_of t in
    let z = year_of u in
    let (from1, to1) = year_of_lem t in
    let (from2, to2) = year_of_lem u in
    elim (Bool-cases (ltb y z)) [
      | inl e ↦
          let below : y < z = ground arith in
          let far = new_year-grow y z below in
          let step = month_start-grow (12 * z) (12 * suc y) (omega arith) in
          inr (far, omega arith, from2)
      | inr e ↦ elim (Bool-cases (ltb z y)) [
        | inl f ↦
            let below : z < y = ground arith in
            let step = month_start-grow (12 * y) (12 * suc z) (omega arith) in absurd (omega arith)
        | inr f ↦ let same : y ≡ z = ground arith in inl (ap (λ x. new_year x) same)
      ]
    ]

-- One or two weeks later the number of the week is as much higher, or at least 30 lower.
week_later :
    (day n : ℕ)
    → 1 ≤ n
    → n ≤ 2
    → (iso_week (day + 7 * n) ≡ iso_week day + n) ⊎ (iso_week (day + 7 * n) + 30 ≤ iso_week day)
unfolding iso_week
week_later day n least most =
    let t = thursday day in
    let (low, _) = year_of_lem t in
    let cases = year-cases t (t + 7 * n) (omega arith) in
    let found =
      week_from-later t n (new_year (year_of t)) (new_year (year_of (t + 7 * n))) least most low
        cases in
    rw (thursday-later day n) found

apart : (a b : ℕ) → (a < b) ⊎ (b < a) → (a == b) ≡ false
apart a b (inl h) = ground arith
apart a b (inr h) = ground arith

months-apart : (a b : ℕ) → suc a ≤ b → b ≤ a + 2 → (b % 12 + 1 == a % 12 + 1) ≡ false
months-apart a b least most = elim (Bool-cases (leb (b % 12) (a % 12))) [
  | inl e ↦
      let low : b % 12 ≤ a % 12 = ground arith in
      apart (b % 12 + 1) (a % 12 + 1) (inl (omega arith))
  | inr e ↦
      let high : a % 12 < b % 12 = ground arith in
      apart (b % 12 + 1) (a % 12 + 1) (inr (omega arith))
]

buckets-apart : (a b : ℕ) → (b ≡ a + 2) ⊎ (b + 30 ≤ a) → ((b + 1) / 2 == (a + 1) / 2) ≡ false
buckets-apart a b (inl h) = apart ((b + 1) / 2) ((a + 1) / 2) (inr (omega arith))
buckets-apart a b (inr h) = apart ((b + 1) / 2) ((a + 1) / 2) (inl (omega arith))

period_number-new :
    (f : Frequency) (date : ℕ)
    → (period_number f (next_generation f date / day_ms) == period_number f (date / day_ms)) ≡ false
unfolding next_generation
period_number-new weekly date =
    let later = week_later (date / day_ms) 1 (omega arith) (omega arith) in
    let at : (date + 7 * day_ms) / day_ms ≡ date / day_ms + 7 * 1 = omega arith in
    rw at (ground (arith, later))
period_number-new bi_weekly date =
    let later = week_later (date / day_ms) 2 (omega arith) (omega arith) in
    let at : (date + 14 * day_ms) / day_ms ≡ date / day_ms + 7 * 2 = omega arith in
    rw at (buckets-apart (iso_week (date / day_ms)) (iso_week (date / day_ms + 14)) later)
period_number-new monthly date =
    let m = month_days (month_of (date / day_ms)) in
    let (least, most) = month_of-next (date / day_ms) in
    let at : (date + m * day_ms) / day_ms ≡ date / day_ms + m = omega arith in
    rw at (months-apart (month_of (date / day_ms)) (month_of (date / day_ms + m)) least most)

-- The booking of a run is never taken for that of the next: the period of the next date is another.
pub next_period-new :
    (f : Frequency) (id date : ℕ)
    → period_eq (build_period_id id (next_generation f date) f) (build_period_id id date f) ≡ false
unfolding period_on
next_period-new f id date = let new = period_number-new f date in ground (arith, new)
