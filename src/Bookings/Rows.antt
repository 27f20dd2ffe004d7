-- ===== src/Bookings/Rows.antt =====
-- The rows that bookings/bookings.service.ts reads and writes, and its private helpers: the
-- change of a status by the table, the proofs of an insured booking, and the expected end of
-- bookings/booking-time.utils.ts. Times are milliseconds; a position is only copied. The start
-- that the service computes from the date and the time of a booking is the field `scheduled_at`.
-- A booking names its client by the id of the user, as the coupons do. A handler reads the clock
-- once.
pub mod Laws
pub mod Sweep
use limpeja_backend.Common.{
  ℕ, ◌+◌, ◌*◌, Bool, true, false, ◌&&◌, ◌||◌, ◌==◌, Option, none, some, List, [], ◌∷◌,
  if◌then◌else◌,
}
use limpeja_backend.Common.Int.{ℤ}
use limpeja_backend.Common.Lists.{find, includes}
use limpeja_backend.Common.Text.{Text}
use limpeja_backend.Common.Outcome.{Outcome, ok, err, ◌>>=◌, ◌>>◌, throw_if, or_throw}
use limpeja_backend.Bookings.Status.{BookingStatus, status_eq}
use limpeja_backend.Bookings.Table.{booking_status_transitions}
use limpeja_backend.Payments.{PaymentIntentStatus, paid}
use limpeja_backend.Coupons.{Store as CouponStore}

-- The enum `InsurancePlanId`.
pub data InsurancePlanId : Type 0 where
  essencial premium total : InsurancePlanId

-- The enum `BookingProofType`.
pub data BookingProofType : Type 0 where
  checkin checkout : BookingProofType

pub record BookingProof : Type 0 where
  pub booking_id : ℕ
  pub type : BookingProofType
  pub has_video : Bool

pub record BookingInsurance : Type 0 where
  pub plan_id : InsurancePlanId
  pub proof_required : Bool

-- `BookingLocationInput`
pub record Location : Type 0 where
  pub lat : ℤ
  pub lng : ℤ
  pub accuracy_m : Option ℤ

pub record Booking : Type 0 where
  pub id : ℕ
  pub client_user : Text
  pub provider_id : ℕ
  pub provider_user : ℕ
  pub status : BookingStatus
  pub scheduled_start : Option ℕ
  pub scheduled_at : ℕ
  pub scheduled_end : Option ℕ
  pub duration_minutes : Option ℕ
  pub expires_at : Option ℕ
  pub total_price : ℕ
  pub accepted_at : Option ℕ
  pub arrived_at : Option ℕ
  pub started_at : Option ℕ
  pub completed_at : Option ℕ
  pub arrived_position : Option Location
  pub started_position : Option Location
  pub completed_position : Option Location
  pub started_by : Option ℕ
  pub completed_by : Option ℕ
  pub coupon_id : Option ℕ
  pub payment : Option PaymentIntentStatus
  pub insurance : Option BookingInsurance

-- What the service asks the scheduler and the notifications to send.
pub data Notice : Type 0 where
  accepted job_started visit_started job_ended client_finished provider_finished : ℕ → Notice
  status_push reminders admin_dispute dispute_job : ℕ → Notice
  client_status : ℕ → BookingStatus → Notice
  proof_sent : ℕ → BookingProofType → Notice

pub record Store : Type 0 where
  pub bookings : List Booking
  pub proofs : List BookingProof
  pub coupons : CouponStore
  pub monthly_bookings : ℕ → ℕ
  pub outbox : List Notice

pub data BookingError : Type 0 where
  not_found forbidden invalid_status already_accepted not_paid proof_required : BookingError
  video_required gps_required too_early too_late before_end outside_window finish_too_early :
      BookingError
  status_finalized not_in_dispute : BookingError
  invalid_transition : BookingStatus → BookingStatus → BookingError

abbrev pub has_id : ℕ → Booking → Bool
has_id id b = b.id == id

-- `findUnique` and `update` by the primary key.
abbrev pub find_booking : ℕ → List Booking → Option Booking
find_booking id bs = find (has_id id) bs

unfoldable pub update_booking : ℕ → (Booking → Booking) → List Booking → List Booking
update_booking id change [] = []
update_booking id change (b ∷ bs) =
    let rest = update_booking id change bs in if has_id id b then change b ∷ bs else b ∷ rest

abbrev pub notify : Notice → Store → Store
notify n s = record s { outbox = n ∷ s.outbox }

-- `assertValidBookingTransition`
unfoldable pub assert_valid_transition :
    BookingStatus → BookingStatus → Outcome BookingError (Unit {0})
assert_valid_transition from to =
    if status_eq from to
    then ok tt
    else (if includes status_eq to (booking_status_transitions from)
        then ok tt
        else err (invalid_transition from to))

-- `changeBookingStatus` for a booking that has been read; `data` sets the further columns.
unfoldable pub change_booking_status :
    Store → Booking → BookingStatus → (Booking → Booking) → Outcome BookingError Store
change_booking_status s b new data_of =
    if status_eq b.status new
    then ok s
    else assert_valid_transition b.status new
      >> ok (record s {
        bookings = update_booking b.id (λ r. data_of (record r { status = new })) s.bookings;
      })

abbrev pub same_type : BookingProofType → BookingProofType → Bool
same_type checkin checkin = true
same_type checkout checkout = true
same_type _ _ = false

-- `ensureProofRecorded`
unfoldable pub ensure_proof_recorded :
    Store → ℕ → BookingProofType → Outcome BookingError BookingProof
ensure_proof_recorded s id type =
    or_throw (find (λ p. p.booking_id == id && same_type p.type type) s.proofs) proof_required

-- `booking.bookingInsurance?.proofRequired`
abbrev pub needs_proof : Option BookingInsurance → Bool
needs_proof none = false
needs_proof (some i) = i.proof_required

abbrev pub is_premium : InsurancePlanId → Bool
is_premium premium = true
is_premium _ = false

-- `requiresProofGps`
unfoldable pub requires_proof_gps : Option BookingInsurance → Bool
requires_proof_gps none = false
requires_proof_gps (some i) = i.proof_required || is_premium i.plan_id

abbrev pub is_paid : Option PaymentIntentStatus → Bool
is_paid (some paid) = true
is_paid _ = false

abbrev pub or_else_time : Option ℕ → ℕ → ℕ
or_else_time (some t) _ = t
or_else_time none t = t

abbrev pub minute_ms : ℕ
minute_ms = 60000

-- `calculateExpectedEnd`: from the start of the service, else from the scheduled one.
unfoldable pub calculate_expected_end : Booking → ℕ
calculate_expected_end b =
    or_else_time b.started_at (or_else_time b.scheduled_start b.scheduled_at)
    + or_else_time b.duration_minutes 60 * minute_ms
