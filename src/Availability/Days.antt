-- ===== src/Availability/Days.antt =====
-- The day in São Paulo that `getSaoPauloDayRangeFromTimestamp` of availability/timezone.ts gives.
use limpeja_backend.Common.{ℕ, ◌+◌, ◌*◌, ◌≤◌, ◌≡◌, ap, arith}
use limpeja_backend.Availability.{day_range, build_day_range, day_ms, offset_ms}

-- The range of a moment has it, and every moment of the range has the same range.
pub day_range_lem :
    (t u : ℕ)
    → offset_ms ≤ t
    → ((day_range t).start ≤ t × t ≤ (day_range t).last)
      × ((day_range t).start ≤ u → u ≤ (day_range t).last → day_range u ≡ day_range t)
unfolding day_range build_day_range
day_range_lem t u after = ((omega arith, omega arith), λ from to. ap build_day_range (omega arith))

-- A week later is the same day of the week.
pub day_range-week :
    (t : ℕ) → offset_ms ≤ t → (day_range (t + 7 * day_ms)).day_of_week ≡ (day_range t).day_of_week
unfolding day_range build_day_range
day_range-week t after = omega arith
