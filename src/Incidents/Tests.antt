-- ===== src/Incidents/Tests.antt =====
-- Runs of claims.
use limpeja_backend.Common.{◌≡◌, ◌↔◌, refl, true, false, Option, none, some, [], ◌∷◌}
use limpeja_backend.Common.Outcome.{ok, err}
use limpeja_backend.Bookings.Rows.{premium, checkout}
use limpeja_backend.Payouts.{Store as PayoutStore}
use limpeja_backend.Payouts.Hold.{BookingRow}
use limpeja_backend.Incidents.{
  Insurance, Booking, Store, ClaimRequest, window_closed, check_claim, add_claim, create_claim,
}
use limpeja_backend.Incidents.Laws.{MayClaim, create_claim_iff}

abbrev insurance : Insurance
insurance = record {
  plan_id = premium;
  proof_required = true;
  deductible_cents = 5000;
  coverage_cents = 100000;
}

abbrev cleaning : Booking
cleaning = record {
  id = 1;
  client_user = 4;
  provider_user = 5;
  completed_at = some 1000;
  insurance = some insurance;
  proofs = record { booking_id = 1; type = checkout; has_video = true } ∷ [];
}

abbrev payouts : PayoutStore
payouts = record {
  payouts = [];
  ledger = [];
  providers = [];
  dispute_of = λ b. none;
  replays = [];
  jobs = [];
  outbox = [];
  breaker = record { failure_count = 0; pause_until = 0; queue_paused = false };
  next_id = 10;
}

abbrev row : Option BookingRow
row = some (record { total_price = some 20000; provider_user = some 5 })

abbrev desk : Store
desk = record { bookings = cleaning ∷ []; claims = []; payouts = payouts; next_id = 0 }

abbrev request : ClaimRequest
request = record { booking_id = 1; amount_cents = 20000; attachments = ok [] }

late : create_claim desk 90000000 4 request row ≡ err window_closed
unfolding create_claim check_claim
late = refl

create_claim_iff_example :
    (create_claim desk 2000 4 request row ≡ ok (add_claim desk 2000 4 request row insurance []))
    ↔ MayClaim 2000 4 cleaning insurance
create_claim_iff_example =
    create_claim_iff desk 2000 4 request row cleaning insurance [] refl refl refl
