-- ===== src/Subscriptions/Period.antt =====
-- The periods of a subscription: `buildSubscriptionPeriodId`, `getIsoWeekNumber` and
-- `calculateNextGenerationDate` of subscriptions/subscriptions.service.ts, with what they use of the
-- calendar of JavaScript for dates after 1970, on a server that runs in UTC. A period is the tuple
-- that its text is made of.
pub mod Calendar
pub mod Laws
use limpeja_backend.Common.{ℕ, ◌+◌, ◌-◌, ◌*◌, ◌/◌, ◌%◌, Bool, true, false, ◌&&◌, ◌==◌}
use limpeja_backend.Subscriptions.Period.Calendar.{year_of, month_of, month_days, new_year}

abbrev pub day_ms : ℕ
day_ms = 86400000

pub data Frequency : Type 0 where
  weekly bi_weekly monthly : Frequency

pub record PeriodId : Type 0 where
  pub subscription_id : ℕ
  pub year : ℕ
  pub frequency : Frequency
  pub number : ℕ

abbrev pub frequency_eq : Frequency → Frequency → Bool
frequency_eq weekly weekly = true
frequency_eq bi_weekly bi_weekly = true
frequency_eq monthly monthly = true
frequency_eq _ _ = false

abbrev pub period_eq : PeriodId → PeriodId → Bool
period_eq p q =
    p.subscription_id == q.subscription_id
    && (p.year == q.year && (frequency_eq p.frequency q.frequency && p.number == q.number))

-- The Thursday of the week of a day since 1970.
abbrev pub thursday : ℕ → ℕ
thursday day = day + 3 - (day + 3) % 7

-- `getIsoWeekNumber`: weeks from the fourth of January, rounded to the nearest.
unfoldable pub iso_week : ℕ → ℕ
iso_week day = let t = thursday day in 1 + (2 * t + 7 - 2 * (new_year (year_of t) + 3)) / 14

abbrev pub period_number : Frequency → ℕ → ℕ
period_number weekly day = iso_week day
period_number bi_weekly day = (iso_week day + 1) / 2
period_number monthly day = month_of day % 12 + 1

-- `buildSubscriptionPeriodId`, for a day since 1970.
unfoldable pub period_on : ℕ → ℕ → Frequency → PeriodId
period_on id day f = record {
  subscription_id = id;
  year = year_of day;
  frequency = f;
  number = period_number f day;
}

abbrev pub build_period_id : ℕ → ℕ → Frequency → PeriodId
build_period_id id date f = period_on id (date / day_ms) f

-- `calculateNextGenerationDate`. A month later is the same day of the month, or as many days later
-- as the month has where the next is too short.
unfoldable pub next_generation : Frequency → ℕ → ℕ
next_generation weekly date = date + 7 * day_ms
next_generation bi_weekly date = date + 14 * day_ms
next_generation monthly date = date + month_days (month_of (date / day_ms)) * day_ms
