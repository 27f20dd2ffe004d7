-- ===== src/Incidents.antt =====
-- incidents/incidents.service.ts: the claims on the insurance of a booking, with the proofs of the
-- bookings service and the hold of the payouts. A booking has the columns that these read. What
-- `sanitizeAttachments` answers, which reads URLs, and the row that the payouts read of the booking
-- are arguments. The text of a claim and the alert to the support, whose failure is only logged, are
-- left out.
pub mod Laws
mod Tests
use limpeja_backend.Common.{
  ℕ, ◌+◌, ltb, Bool, true, false, not, ◌&&◌, ◌||◌, ◌==◌, Option, none, some, List, [], ◌∷◌, ◌++◌,
  if◌then◌else◌,
}
use limpeja_backend.Common.Lists.{find}
use limpeja_backend.Common.Text.{Text}
use limpeja_backend.Common.Outcome.{Outcome, ok, err, ◌>>=◌, ◌>>◌, throw_if, or_throw}
use limpeja_backend.Bookings.Table.{UserRole, admin}
use limpeja_backend.Bookings.Rows.{
  InsurancePlanId, essencial, premium, total, BookingProof, checkout, same_type,
}
use limpeja_backend.Coupons.Issue.{day}
use limpeja_backend.Payouts.{Store as PayoutStore}
use limpeja_backend.Payouts.Hold.{BookingRow, hold_booking_for_claim}

-- The enum `ClaimStatus`.
pub data ClaimStatus : Type 0 where
  pending under_review approved rejected settled : ClaimStatus

pub record Insurance : Type 0 where
  pub plan_id : InsurancePlanId
  pub proof_required : Bool
  pub deductible_cents : ℕ
  pub coverage_cents : ℕ

pub record Booking : Type 0 where
  pub id : ℕ
  pub client_user : ℕ
  pub provider_user : ℕ
  pub completed_at : Option ℕ
  pub insurance : Option Insurance
  pub proofs : List BookingProof

pub record InsuranceClaim : Type 0 where
  pub id : ℕ
  pub booking_id : ℕ
  pub reporter_id : ℕ
  pub amount_cents : ℕ
  pub attachments : List Text
  pub deductible_cents : ℕ
  pub coverage_cents : ℕ
  pub plan_id : InsurancePlanId
  pub status : ClaimStatus
  pub below_deductible : Bool

pub record Store : Type 0 where
  pub bookings : List Booking
  pub claims : List InsuranceClaim
  pub payouts : PayoutStore
  pub next_id : ℕ

pub data IncidentError : Type 0 where
  not_found forbidden not_completed window_closed no_insurance : IncidentError
  checkout_missing video_missing bad_attachments : IncidentError

-- `CreateIncidentClaimDto`, with the answer of `sanitizeAttachments`.
pub record ClaimRequest : Type 0 where
  pub booking_id : ℕ
  pub amount_cents : ℕ
  pub attachments : Outcome IncidentError (List Text)

abbrev pub has_id : ℕ → Booking → Bool
has_id id b = b.id == id

abbrev pub is_participant : ℕ → Booking → Bool
is_participant user b = b.client_user == user || b.provider_user == user

abbrev pub is_checkout : BookingProof → Bool
is_checkout p = same_type p.type checkout

abbrev pub wants_video : InsurancePlanId → Bool
wants_video essencial = false
wants_video _ = true

-- The proof of the end that the insurance asks for.
unfoldable pub check_proof : Insurance → List BookingProof → Outcome IncidentError (Unit {0})
check_proof i proofs =
    let proven = or_throw (find is_checkout proofs) checkout_missing >>= λ p.
    throw_if (wants_video i.plan_id && not p.has_video) video_missing in
    if i.proof_required then proven else ok tt

-- What `createClaim` tests before it writes, with the insurance that it finds.
unfoldable pub check_claim : ℕ → ℕ → Booking → Outcome IncidentError Insurance
check_claim now user b =
    throw_if (not (is_participant user b)) forbidden
    >> (or_throw b.completed_at not_completed >>= λ done.
        throw_if (ltb (done + day) now) window_closed
        >> (or_throw b.insurance no_insurance >>= λ i. check_proof i b.proofs >> ok i))

abbrev pub claim_status : Bool → ClaimStatus
claim_status below = if below then rejected else pending

abbrev pub claim_of : Store → ℕ → ClaimRequest → Insurance → List Text → InsuranceClaim
claim_of s user r i files = record {
  id = s.next_id;
  booking_id = r.booking_id;
  reporter_id = user;
  amount_cents = r.amount_cents;
  attachments = files;
  deductible_cents = i.deductible_cents;
  coverage_cents = i.coverage_cents;
  plan_id = i.plan_id;
  status = claim_status (ltb r.amount_cents i.deductible_cents);
  below_deductible = ltb r.amount_cents i.deductible_cents;
}

-- The row, and the hold on what the provider earns of the booking.
abbrev pub add_claim :
    Store → ℕ → ℕ → ClaimRequest → Option BookingRow → Insurance → List Text → Store
add_claim s now user r row i files = record s {
  claims = s.claims ++ claim_of s user r i files ∷ [];
  payouts = hold_booking_for_claim s.payouts now r.booking_id row;
  next_id = s.next_id + 1;
}

-- `createClaim`
unfoldable pub create_claim :
    Store → ℕ → ℕ → ClaimRequest → Option BookingRow → Outcome IncidentError Store
create_claim s now user r row = or_throw (find (has_id r.booking_id) s.bookings) not_found >>= λ b.
    check_claim now user b >>= λ i.
    r.attachments >>= λ files. ok (add_claim s now user r row i files)

abbrev pub is_admin : UserRole → Bool
is_admin admin = true
is_admin _ = false

abbrev pub is_claim : ℕ → InsuranceClaim → Bool
is_claim id c = c.id == id

-- The tests of `getClaim` on a claim and its booking.
abbrev pub may_read : ℕ → UserRole → InsuranceClaim → Booking → Outcome IncidentError InsuranceClaim
may_read user role c b =
    throw_if (not (c.reporter_id == user || is_participant user b || is_admin role)) forbidden
    >> ok c

-- `getClaim`
unfoldable pub get_claim : Store → ℕ → ℕ → UserRole → Outcome IncidentError InsuranceClaim
get_claim s id user role = or_throw (find (is_claim id) s.claims) not_found >>= λ c.
    or_throw (find (has_id c.booking_id) s.bookings) not_found >>= may_read user role c
