-- ===== src/Payments/Machine.antt =====
-- payments/payment.state-machine.ts, and the reading of a stored status as a state by
-- payments/payments.service.ts.
use limpeja_backend.Common.{
  ◌≡◌, refl, ◌∙◌, subst, ◌⊎◌, inl, inr, Bool, true, false, List, [], ◌∷◌, arith, if◌then◌else◌,
}
use limpeja_backend.Common.Lists.{includes}
use limpeja_backend.Common.Outcome.{Outcome, ok, err}
use limpeja_backend.Payments.{PaymentIntentStatus, pending, paid, expired, refunded, chargeback}

pub data PaymentIntentState : Type 0 where
  created awaiting confirmed failed cancelled lapsed : PaymentIntentState

pub data TransitionError : Type 0 where
  invalid_transition : PaymentIntentState → PaymentIntentState → TransitionError

abbrev pub state_eq : PaymentIntentState → PaymentIntentState → Bool
state_eq created created = true
state_eq awaiting awaiting = true
state_eq confirmed confirmed = true
state_eq failed failed = true
state_eq cancelled cancelled = true
state_eq lapsed lapsed = true
state_eq _ _ = false

-- `PAYMENT_TRANSITIONS`; the states PENDING and EXPIRED are `awaiting` and `lapsed`.
abbrev pub payment_transitions : PaymentIntentState → List PaymentIntentState
payment_transitions created = awaiting ∷ []
payment_transitions awaiting = confirmed ∷ failed ∷ cancelled ∷ lapsed ∷ []
payment_transitions _ = []

-- `canTransition`
unfoldable pub can_transition : PaymentIntentState → PaymentIntentState → Bool
can_transition from to =
    if state_eq from to then true else includes state_eq to (payment_transitions from)

-- `applyTransition`, whose test is `assertTransition`.
unfoldable pub apply_transition :
    PaymentIntentState → PaymentIntentState → Outcome TransitionError PaymentIntentState
apply_transition current desired =
    if state_eq current desired
    then ok current
    else (if can_transition current desired
        then ok desired
        else err (invalid_transition current desired))

-- `mapPaymentIntentStatusToState`
abbrev pub state_of : PaymentIntentStatus → PaymentIntentState
state_of paid = confirmed
state_of expired = lapsed
state_of refunded = cancelled
state_of chargeback = cancelled
state_of pending = awaiting

-- A chain of transitions that `applyTransition` accepts.
pub data History (from : PaymentIntentState) : PaymentIntentState → Type 0 where
  here : History from from
  step :
      {m to : PaymentIntentState} → History from m → apply_transition m to ≡ ok to → History from to

abbrev pub IsOpen : PaymentIntentState → Type 0
IsOpen s = (s ≡ created) ⊎ (s ≡ awaiting)

closed_step : (s t : PaymentIntentState) → ¬ (IsOpen s) → apply_transition s t ≡ ok t → s ≡ t
unfolding apply_transition can_transition
closed_step created t h k = absurd (h (inl refl))
closed_step awaiting t h k = absurd (h (inr refl))
closed_step s t h k = ground arith

-- A payment that is confirmed, failed, cancelled or expired never changes its state again.
pub closed_stays : {s t : PaymentIntentState} → ¬ (IsOpen s) → History s t → s ≡ t
closed_stays h here = refl
closed_stays h (step {m} {to} w k) =
    let same = closed_stays h w in same ∙ closed_step m to (subst (λ x. ¬ (IsOpen x)) same h) k
