-- ===== src/Bookings/Price/Laws.antt =====
-- What a price covers: bookings/pricing/price-calculator.ts.
use limpeja_backend.Common.{ℕ, suc, ◌+◌, ◌*◌, ◌≤◌, ◌<◌, ◌≡◌, refl, max, Option, some, arith}
use limpeja_backend.Common.Outcome.{ok}
use limpeja_backend.Bookings.Price.{
  PriceResult, billed_hours, calculate_service_total_price, duration_given,
}

billed_hours-bounds :
    (minutes : ℕ)
    → (4 ≤ billed_hours minutes)
      × (minutes ≤ 60 * billed_hours minutes)
      × (240 < minutes → 60 * billed_hours minutes < minutes + 60)
unfolding billed_hours
billed_hours-bounds minutes = ground arith

-- A positive hourly price and a positive request are priced: at a number of whole hours that is at
-- least four, covers the request and the minimum, and is less than an hour more wherever these ask
-- for more than four.
pub calculate_service_total_price_lem :
    (price requested : ℕ) (default : Option ℕ) (minimum : ℕ)
    → (r : PriceResult) × (h : ℕ) × (calculate_service_total_price
          (some (suc price))
          (some (suc requested))
          default
          minimum
        ≡ ok r)
      × (r.total_price ≡ suc price * h)
      × (4 ≤ h)
      × (max (suc requested) minimum ≤ 60 * h)
      × (240 < max (suc requested) minimum → 60 * h < max (suc requested) minimum + 60)
unfolding calculate_service_total_price duration_given
calculate_service_total_price_lem price requested default minimum =
    let minutes = max (suc requested) minimum in
    let (four, covers, tight) = billed_hours-bounds minutes in
    (
      record { total_price = suc price * billed_hours minutes; duration = minutes },
      billed_hours minutes,
      refl,
      refl,
      four,
      covers,
      tight,
    )
