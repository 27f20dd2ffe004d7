-- ===== src/Bookings/Machine.antt =====
-- What the state machine promises, and how it stands to the tables.
use Prim.Native.String.{String}
use limpeja_backend.Common.{
  ◌≡◌, ◌≢◌, ◌↔◌, subst, Option, none, some, ◌⊎◌, inl, inr, refl, Bool, true, false, [], arith,
}
use limpeja_backend.Common.Lists.{find, includes, any-find, is_some}
use limpeja_backend.Common.Outcome.{Outcome, ok, err}
use limpeja_backend.Bookings.Status.{
  BookingStatus, pending, pending_payment, pending_provider_confirmation, confirmed, on_the_way,
  arrived, started, finished, canceled, pending_dispute, rescheduled, rejected, no_show,
  BookingEvent, confirm, reject, cancel, start_travel, arrive, start_service, complete_service,
  reschedule, open_dispute, mark_no_show, StatusError, invalid_transition, status_name, status_eq,
  normalize_booking_status, Transition, fits, booking_transitions, target_or_error, read_status,
  can_leave, can_transition, next_status, get_next_status,
}
use limpeja_backend.Bookings.Table.{
  UserRole, client, provider, booking_status_transitions, booking_status_requires_action,
  booking_transitions_by_role,
}

-- Reading back the name of a status gives the status.
pub normalize-status_name : (s : BookingStatus) → normalize_booking_status (status_name s) ≡ ok s
unfolding normalize_booking_status
normalize-status_name pending = refl
normalize-status_name _ = refl

next-allowed :
    (s : BookingStatus) (e : BookingEvent) (t : BookingStatus)
    → next_status s e ≡ ok t
    → includes status_eq t (booking_status_transitions s) ≡ true
unfolding next_status
next-allowed pending e t h = ground arith
next-allowed _ e t h = ground arith

abbrev leading_event : BookingStatus → BookingStatus → BookingEvent
leading_event rescheduled confirmed = reschedule
leading_event pending_dispute finished = complete_service
leading_event _ confirmed = confirm
leading_event _ rejected = reject
leading_event _ canceled = cancel
leading_event _ on_the_way = start_travel
leading_event _ arrived = arrive
leading_event _ started = start_service
leading_event _ finished = complete_service
leading_event _ rescheduled = reschedule
leading_event _ no_show = mark_no_show
leading_event _ _ = open_dispute

allowed-next :
    (s t : BookingStatus)
    → s ≢ pending_payment
    → s ≢ pending_provider_confirmation
    → includes status_eq t (booking_status_transitions s) ≡ true
    → next_status s (leading_event s t) ≡ ok t
unfolding next_status
allowed-next pending t p q h = ground arith
allowed-next _ t p q h = ground arith

-- The statuses of a booking that still waits for its payment or its provider.
abbrev pub IsAwaiting : BookingStatus → Type 0
IsAwaiting s = (s ≡ pending_payment) ⊎ (s ≡ pending_provider_confirmation)

-- Outside the two awaiting statuses, the table of status changes lists `t` after `s` exactly if
-- some event leads the state machine from `s` to `t`.
pub table_iff_machine :
    (s t : BookingStatus)
    → ¬ IsAwaiting s
    → (includes status_eq t (booking_status_transitions s) ≡ true)
      ↔ ((e : BookingEvent) × (next_status s e ≡ ok t))
table_iff_machine s t h = (
  λ p. (leading_event s t, allowed-next s t (λ e. h (inl e)) (λ e. h (inr e)) p),
  λ (e, p). next-allowed s e t p,
)

-- From an awaiting status the state machine refuses every event, while the table of status
-- changes lets the booking be confirmed.
pub awaiting_diverges :
    (s : BookingStatus)
    → IsAwaiting s
    → ((e : BookingEvent) → next_status s e ≡ err (invalid_transition s e))
      × (includes status_eq confirmed (booking_status_transitions s) ≡ true)
unfolding next_status
awaiting_diverges pending (inl h) = cc
awaiting_diverges pending (inr h) = cc
awaiting_diverges pending_payment h = ((λ e. ground arith), refl)
awaiting_diverges pending_provider_confirmation h = ((λ e. ground arith), refl)
awaiting_diverges s (inl h) = cc
awaiting_diverges s (inr h) = cc

-- A role may change a status only as the general table allows.
pub role_within_table :
    (r : UserRole) (s t : BookingStatus)
    → includes status_eq t (booking_transitions_by_role r s) ≡ true
    → includes status_eq t (booking_status_transitions s) ≡ true
role_within_table client pending t h = ground arith
role_within_table client s t h = ground arith
role_within_table provider pending t h = ground arith
role_within_table provider s t h = ground arith
role_within_table r s t h = h

-- A booking asks for action exactly while its status can still change.
pub requires_action_iff :
    (s : BookingStatus)
    → (booking_status_requires_action s ≡ true) ↔ (booking_status_transitions s ≢ [])
requires_action_iff pending = ground arith
requires_action_iff _ = ground arith

-- What the answer of `canTransition` says of the answer of `getNextStatus`.
abbrev pub Agrees : Outcome StatusError Bool → Outcome StatusError BookingStatus → Type 0
Agrees (ok true) r = (t : BookingStatus) × (r ≡ ok t)
Agrees (ok false) r = (s : BookingStatus) × (e : BookingEvent) × (r ≡ err (invalid_transition s e))
Agrees (err x) r = r ≡ err x

can_leave-Agrees :
    (s : BookingStatus) (e : BookingEvent) → Agrees (ok (can_leave s e)) (next_status s e)
unfolding can_leave next_status
can_leave-Agrees s e = rw any-find (found (find (fits s e) booking_transitions))
  where
    found : (o : Option Transition) → Agrees (ok (is_some o)) (target_or_error s e o)
    found none = (s, e, refl)
    found (some t) = (t.to, refl)

-- For every text and event: the state machine announces a transition exactly if it then performs
-- one, refuses one exactly if performing it throws for that reason, and throws on an unknown
-- status in both.
pub can_transition-get_next_status :
    (text : String) (e : BookingEvent) → Agrees (can_transition text e) (get_next_status text e)
unfolding can_transition get_next_status
can_transition-get_next_status text e = read (normalize_booking_status text)
  where
    read :
        (r : Outcome StatusError BookingStatus)
        → Agrees (read_status r (λ s. ok (can_leave s e))) (read_status r (λ s. next_status s e))
    read (ok s) = can_leave-Agrees s e
    read (err x) = refl

-- The histories of a booking that lead from `s` to `t` by events, through statuses with `P`.
pub data Walk (P : BookingStatus → Type 0) (s : BookingStatus) : BookingStatus → Type 0 where
  here : Walk P s s
  step :
      {t u : BookingStatus} (e : BookingEvent)
      → Walk P s t
      → P t
      → next_status t e ≡ ok u
      → Walk P s u

-- Neither confirmed by the provider nor in dispute.
abbrev pub IsUnsettled : BookingStatus → Type 0
IsUnsettled s = (s ≢ confirmed) × (s ≢ pending_dispute)

abbrev pub IsEarly : BookingStatus → Type 0
IsEarly s =
    (s ≡ pending) ⊎ (s ≡ rejected) ⊎ (s ≡ canceled) ⊎ (s ≡ confirmed) ⊎ (s ≡ pending_dispute)

IsEarly-step :
    (s t : BookingStatus) (e : BookingEvent)
    → IsEarly s
    → IsUnsettled s
    → next_status s e ≡ ok t
    → IsEarly t
unfolding next_status
IsEarly-step pending t e early q h = ground arith
IsEarly-step s t e early q h = ground arith

-- A history of events from `pending` that continues from no confirmed and from no disputed booking
-- ends pending, rejected or canceled, or has just reached confirmed or pending_dispute: without a
-- confirmation or a dispute on the way, no service is under way or done.
pub no_service_unconfirmed : {t : BookingStatus} → Walk IsUnsettled pending t → IsEarly t
no_service_unconfirmed here = inl refl
no_service_unconfirmed (step {t} {u} e w q h) = IsEarly-step t u e (no_service_unconfirmed w) q h

abbrev pub Always : BookingStatus → Type 0
Always s = Unit

abbrev pub IsFinal : BookingStatus → Type 0
IsFinal s = booking_status_transitions s ≡ []

final_step : (s t : BookingStatus) (e : BookingEvent) → IsFinal s → next_status s e ≢ ok t
unfolding next_status
final_step pending t e f h = cc
final_step s t e f h = ground arith

-- A final status is never left, whatever events follow.
pub final_stays : {s t : BookingStatus} → IsFinal s → Walk Always s t → t ≡ s
final_stays f here = refl
final_stays {s} f (step {t} {u} e w q h) =
    absurd (final_step s u e f (subst (λ x. next_status x e ≡ ok u) (final_stays f w) h))
