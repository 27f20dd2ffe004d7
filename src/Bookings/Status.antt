-- ===== src/Bookings/Status.antt =====
-- The statuses and events of a booking, and the state machine of
-- bookings/states/booking.state-machine.ts. A status that comes from outside is a text; a text
-- that names an inherited member of `Object.prototype` is left out, so the lookup of a legacy
-- name finds the eight listed keys only.
use Prim.Native.String.{String}
use text.Mathlib.Text.{◌==◌ as str_eq}
use limpeja_backend.Common.{ℕ, Bool, ◌&&◌, ◌==◌, Option, none, some, List, [], ◌∷◌, if◌then◌else◌}
use limpeja_backend.Common.Lists.{any, find}
use limpeja_backend.Common.Outcome.{Outcome, ok, err}

-- The enum `BookingStatus` of prisma/schema.prisma.
pub data BookingStatus : Type 0 where
  pending pending_payment pending_provider_confirmation confirmed : BookingStatus
  on_the_way arrived started finished canceled expired : BookingStatus
  pending_dispute rescheduled rejected no_show : BookingStatus

pub data BookingEvent : Type 0 where
  confirm reject cancel start_travel arrive : BookingEvent
  start_service complete_service reschedule open_dispute mark_no_show : BookingEvent

-- `Object.values(BookingStatus)`
abbrev pub all_statuses : List BookingStatus
all_statuses =
    pending ∷ pending_payment ∷ pending_provider_confirmation ∷ confirmed ∷ on_the_way ∷ arrived
    ∷ started ∷ finished ∷ canceled ∷ expired ∷ pending_dispute ∷ rescheduled ∷ rejected ∷ no_show
    ∷ []

-- The text that the program uses for a status.
abbrev pub status_name : BookingStatus → String
status_name pending = "PENDING"
status_name pending_payment = "PENDING_PAYMENT"
status_name pending_provider_confirmation = "PENDING_PROVIDER_CONFIRMATION"
status_name confirmed = "CONFIRMED"
status_name on_the_way = "ON_THE_WAY"
status_name arrived = "ARRIVED"
status_name started = "STARTED"
status_name finished = "FINISHED"
status_name canceled = "CANCELED"
status_name expired = "EXPIRED"
status_name pending_dispute = "PENDING_DISPUTE"
status_name rescheduled = "RESCHEDULED"
status_name rejected = "REJECTED"
status_name no_show = "NO_SHOW"

-- Positions in the enum: two statuses are one exactly if these are.
abbrev status_rank : BookingStatus → ℕ
status_rank pending = 0
status_rank pending_payment = 1
status_rank pending_provider_confirmation = 2
status_rank confirmed = 3
status_rank on_the_way = 4
status_rank arrived = 5
status_rank started = 6
status_rank finished = 7
status_rank canceled = 8
status_rank expired = 9
status_rank pending_dispute = 10
status_rank rescheduled = 11
status_rank rejected = 12
status_rank no_show = 13

abbrev event_rank : BookingEvent → ℕ
event_rank confirm = 0
event_rank reject = 1
event_rank cancel = 2
event_rank start_travel = 3
event_rank arrive = 4
event_rank start_service = 5
event_rank complete_service = 6
event_rank reschedule = 7
event_rank open_dispute = 8
event_rank mark_no_show = 9

-- `===` on statuses and on events.
abbrev pub status_eq : BookingStatus → BookingStatus → Bool
status_eq a b = status_rank a == status_rank b

abbrev pub event_eq : BookingEvent → BookingEvent → Bool
event_eq a b = event_rank a == event_rank b

-- `LEGACY_STATUS_MAP`
abbrev pub legacy_status_map : List (String × BookingStatus)
legacy_status_map =
    ("ACCEPTED", confirmed)
    ∷ ("COMPLETED", finished)
    ∷ ("PAID", finished)
    ∷ ("REVIEWED", finished)
    ∷ ("DISPUTED", pending_dispute)
    ∷ ("IN_PROGRESS", started)
    ∷ ("CANCELED_BY_CUSTOMER", canceled)
    ∷ ("CANCELED_BY_PROVIDER", canceled)
    ∷ []

-- The errors that the state machine throws.
pub data StatusError : Type 0 where
  unknown_status : String → StatusError
  invalid_transition : BookingStatus → BookingEvent → StatusError

abbrev find_name : String → List BookingStatus → Option BookingStatus
find_name text [] = none
find_name text (s ∷ ss) = if str_eq text (status_name s) then some s else find_name text ss

abbrev find_legacy : String → List (String × BookingStatus) → Option BookingStatus
find_legacy text [] = none
find_legacy text ((key, s) ∷ rest) = if str_eq text key then some s else find_legacy text rest

abbrev or_legacy :
    String → Option BookingStatus → Option BookingStatus → Outcome StatusError BookingStatus
or_legacy text (some s) _ = ok s
or_legacy text none (some s) = ok s
or_legacy text none none = err (unknown_status text)

-- `normalizeBookingStatus`: an official name first, then a legacy one, else an error.
unfoldable pub normalize_booking_status : String → Outcome StatusError BookingStatus
normalize_booking_status text =
    or_legacy text (find_name text all_statuses) (find_legacy text legacy_status_map)

-- The table holds one status under `from` in every row, so `Array.isArray` is false throughout.
pub record Transition : Type 0 where
  pub from : BookingStatus
  pub to : BookingStatus
  pub event : BookingEvent

abbrev row : BookingStatus → BookingStatus → BookingEvent → Transition
row from to event = record { from = from; to = to; event = event }

abbrev pub booking_transitions : List Transition
booking_transitions =
    row pending confirmed confirm
    ∷ row pending rejected reject
    ∷ row pending canceled cancel
    ∷ row pending pending_dispute open_dispute
    ∷ row confirmed on_the_way start_travel
    ∷ row confirmed arrived arrive
    ∷ row confirmed started start_service
    ∷ row confirmed finished complete_service
    ∷ row confirmed canceled cancel
    ∷ row confirmed rescheduled reschedule
    ∷ row confirmed pending_dispute open_dispute
    ∷ row on_the_way arrived arrive
    ∷ row on_the_way canceled cancel
    ∷ row on_the_way pending_dispute open_dispute
    ∷ row arrived started start_service
    ∷ row arrived canceled cancel
    ∷ row arrived pending_dispute open_dispute
    ∷ row started finished complete_service
    ∷ row started canceled cancel
    ∷ row started pending_dispute open_dispute
    ∷ row rescheduled confirmed reschedule
    ∷ row rescheduled canceled cancel
    ∷ row rescheduled pending_dispute open_dispute
    ∷ row pending_dispute finished complete_service
    ∷ row pending_dispute canceled cancel
    ∷ row pending_dispute no_show mark_no_show
    ∷ []

abbrev pub fits : BookingStatus → BookingEvent → Transition → Bool
fits s e t = status_eq t.from s && event_eq t.event e

abbrev pub read_status {ℓ} :
    {A : Type ℓ}
    → Outcome StatusError BookingStatus
    → (BookingStatus → Outcome StatusError A)
    → Outcome StatusError A
read_status (ok s) k = k s
read_status (err e) k = err e

-- The test of `canTransition`, on a status that has been read.
unfoldable pub can_leave : BookingStatus → BookingEvent → Bool
can_leave s event = any (fits s event) booking_transitions

-- `BookingStateMachine.canTransition`
unfoldable pub can_transition : String → BookingEvent → Outcome StatusError Bool
can_transition current event =
    read_status (normalize_booking_status current) λ s. ok (can_leave s event)

abbrev pub target_or_error :
    BookingStatus → BookingEvent → Option Transition → Outcome StatusError BookingStatus
target_or_error s e (some t) = ok t.to
target_or_error s e none = err (invalid_transition s e)

-- The lookup of `getNextStatus`, from a status that has been read.
unfoldable pub next_status : BookingStatus → BookingEvent → Outcome StatusError BookingStatus
next_status s event = target_or_error s event (find (fits s event) booking_transitions)

-- `BookingStateMachine.getNextStatus`
unfoldable pub get_next_status : String → BookingEvent → Outcome StatusError BookingStatus
get_next_status current event =
    read_status (normalize_booking_status current) λ s. next_status s event
