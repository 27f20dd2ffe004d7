-- ===== src/Bookings/Price.antt =====
-- bookings/pricing/price-calculator.ts: the price of a service by the hour, in cents. Durations are
-- minutes and not negative; a missing one is none.
pub mod Laws
use limpeja_backend.Common.{
  ℕ, zero, suc, ◌+◌, ◌*◌, ◌/◌, max, Bool, true, false, ◌==◌, Option, none, some, if◌then◌else◌,
}
use limpeja_backend.Common.Outcome.{Outcome, ok, err, ◌>>=◌, ◌>>◌, throw_if, or_throw}

pub data PriceError : Type 0 where
  hourly_price_missing duration_required : PriceError

abbrev pub min_hourly_minutes : ℕ
min_hourly_minutes = 240

-- `!hourlyPrice || hourlyPrice <= 0`
abbrev pub price_given : Option ℕ → Option ℕ
price_given none = none
price_given (some p) = elim p [ zero ↦ none | suc k ↦ some (suc k) ]

-- The requested duration, else the default of the service, if one of them is positive.
unfoldable pub duration_given : Option ℕ → Option ℕ → Option ℕ
duration_given (some (suc k)) _ = some (suc k)
duration_given _ (some (suc k)) = some (suc k)
duration_given _ _ = none

-- `Math.ceil(minutes / 60)`
abbrev pub hours : ℕ → ℕ
hours minutes = (minutes + 59) / 60

pub record PriceResult : Type 0 where
  pub total_price : ℕ
  pub duration : ℕ

unfoldable pub billed_hours : ℕ → ℕ
billed_hours minutes = max (hours minutes) (max 4 (hours min_hourly_minutes))

-- `calculateServiceTotalPrice`; the price is never negative here.
unfoldable pub calculate_service_total_price :
    Option ℕ → Option ℕ → Option ℕ → ℕ → Outcome PriceError PriceResult
calculate_service_total_price hourly requested default minimum = do
  price ← or_throw (price_given hourly) hourly_price_missing
  minutes ← or_throw (duration_given requested default) duration_required
  let normalized = max minutes minimum
  ok (record { total_price = price * billed_hours normalized; duration = normalized })
