-- ===== src/Subscriptions/Laws/History.antt =====
-- What holds after any history of subscriptions that are made, changed and run:
-- subscriptions/subscriptions.service.ts. The key of a new row is not in use, and its status is ACTIVE.
use limpeja_backend.Common.{ℕ, ◌≡◌, Bool, true, none}
use limpeja_backend.Common.Outcome.{ok}
use limpeja_backend.Subscriptions.{
  Subscription, Desk, RunInput, UpdateDto, find_subscription, is_active, generate_recurring_booking,
  update, create,
}

-- One call that ends well; of `create` also one that ends in an exception, since its row stays.
pub data Call : Desk → Desk → Type 0 where
  made :
      {d : Desk} (now : ℕ) (has_rows : Bool) (r : RunInput) (s : Subscription)
      → find_subscription s.id d.subscriptions ≡ none
      → is_active s.status ≡ true
      → Call d (create now has_rows s r d).0
  updated :
      {d e : Desk} (now id user : ℕ) (is_client : Bool) (u : UpdateDto)
      → update now id u user is_client d ≡ ok e
      → Call d e
  ran :
      {d e : Desk} {done : Bool} (now id : ℕ) (r : RunInput)
      → generate_recurring_booking now id r d ≡ ok (done, e)
      → Call d e

pub data History : Desk → Desk → Type 0 where
  here : {d : Desk} → History d d
  then_ : {d e f : Desk} → History d e → Call e f → History d f
