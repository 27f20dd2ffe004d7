-- ===== src/Subscriptions/Laws/Sound.antt =====
-- A run of a subscription keeps the bookings apart by period and the stopped ones without a job:
-- `generateRecurringBooking` of subscriptions/subscriptions.service.ts.
pub mod Changes
use limpeja_backend.Common.{
  ℕ, ◌+◌, ◌≡◌, refl, sym, ap, Bool, true, false, not, ◌==◌, Option, none, some, List, [], ◌∷◌, ◌++◌,
  arith, inl, inr, Bool-cases, Option-cases, ltb, ◌∙◌, subst, ◌&&◌, if◌then◌else◌,
}
use limpeja_backend.Common.Lists.{any}
use limpeja_backend.Common.Outcome.{Outcome, ok, err, ◌>>=◌, >>=-ok, throw_if-ok, Outcome-cases}
use limpeja_backend.Subscriptions.{
  Subscription, SubscriptionStatus, SubscriptionError, Desk, RunInput, Address, UpdateDto, active,
  has_key, find_subscription, is_active, is_stopped, is_of_period, period_of, advance, add_row,
  flag_address, create_booking, keep_booking, finish, run_due, run_addressed, run_found,
  generate_recurring_booking, update, update_found, changed, jobs_after, create, after_first_run,
  schedule, remove_job, is_job_of, horizon_ms, forbidden, update_row, GenerationJob, or_kept,
}
use limpeja_backend.Subscriptions.Laws.{
  HasOnePerPeriod, IsQuiet, added-HasOnePerPeriod, update_row-IsQuiet, remove_job-own,
  remove_job-other, schedule-other,
}
use limpeja_backend.Subscriptions.Laws.Runs.{create_booking-ok, find-key}

-- No period has two bookings, and a subscription that is paused or canceled has no job.
abbrev pub IsSound : Desk → Type 0
IsSound d = HasOnePerPeriod d.generated × IsQuiet d.subscriptions d.jobs

pub active-not_stopped : (t : SubscriptionStatus) → is_active t ≡ true → is_stopped t ≡ false
active-not_stopped active h = refl
active-not_stopped _ h = cc

module _ (now : ℕ) (s : Subscription) (d : Desk)
    (found : find_subscription s.id d.subscriptions ≡ some s)
    (live : is_active s.status ≡ true) where
  advance-IsSound : IsSound d → IsSound (advance now s d)
  unfolding advance
  advance-IsSound (one, quiet) = (
    one,
    update_row-IsQuiet s.id _ d.subscriptions s d.jobs _ (λ r. refl) found
        (λ stop. absurd (let go = active-not_stopped s.status live in cc))
        (λ id other h. schedule-other now _ s.id id d.jobs other h) quiet,
  )

  flag_address-IsSound : IsSound d → IsSound (flag_address s.id d)
  flag_address-IsSound (one, quiet) = (
    one,
    update_row-IsQuiet s.id _ d.subscriptions s d.jobs d.jobs (λ r. refl) found (λ stop. absurd cc)
        (λ id other h. h) quiet,
  )

run_due-IsSound :
    (now : ℕ) (s : Subscription) (r : RunInput) (d e : Desk) (done : Bool)
    → find_subscription s.id d.subscriptions ≡ some s
    → is_active s.status ≡ true
    → run_due now s r d ≡ ok (done, e)
    → IsSound d
    → IsSound e
unfolding run_due
run_due-IsSound now s r d e done found live h (one, quiet) =
    elim (Bool-cases (any (is_of_period s.id (period_of s)) d.generated)) [
      | inl there ↦
          let is : advance now s d ≡ e = ground arith in
          subst IsSound is (advance-IsSound now s d found live (one, quiet))
      | inr fresh ↦
          let h1 : (create_booking now s r d >>= finish now s) ≡ ok (done, e) = ground arith in
          let (made, h2, h3) = >>=-ok (create_booking now s r d) (finish now s) h1 in
          let (m, kept) = create_booking-ok now s r d made h2 in
          let is : advance now s made ≡ e = cc in
          let sound : IsSound (keep_booking s d m) =
            (added-HasOnePerPeriod d.generated _ fresh one, quiet) in
          subst IsSound (ap (λ x. advance now s x) (sym kept) ∙ is)
            (advance-IsSound now s (keep_booking s d m) found live sound)
    ]

run_addressed-IsSound :
    (now : ℕ) (s : Subscription) (r : RunInput) (d e : Desk) (done : Bool) (o : Option Address)
    → find_subscription s.id d.subscriptions ≡ some s
    → is_active s.status ≡ true
    → run_addressed now s r d o ≡ ok (done, e)
    → IsSound d
    → IsSound e
run_addressed-IsSound now s r d e done none found live h k =
    let is : flag_address s.id d ≡ e = cc in
    subst IsSound is (flag_address-IsSound now s d found live k)
run_addressed-IsSound now s r d e done (some a) found live h k =
    elim (Bool-cases a.has_coordinates) [
      | inl located ↦ elim (Bool-cases (ltb (now + horizon_ms) s.next_generation_date)) [
        | inl early ↦ let is : d ≡ e = ground arith in subst IsSound is k
        | inr due ↦ run_due-IsSound now s r d e done found live (ground arith) k
      ]
      | inr lost ↦
          let is : flag_address s.id d ≡ e = ground arith in
          subst IsSound is (flag_address-IsSound now s d found live k)
    ]

pub generate-IsSound :
    (now id : ℕ) (r : RunInput) (d e : Desk) (done : Bool)
    → generate_recurring_booking now id r d ≡ ok (done, e)
    → IsSound d
    → IsSound e
unfolding generate_recurring_booking
generate-IsSound now id r d e done h k =
    elim (Option-cases (find_subscription id d.subscriptions)) [
      | inl missing ↦ let is : d ≡ e = ground arith in subst IsSound is k
      | inr (s, found) ↦ elim (Bool-cases (is_active s.status)) [
        | inl live ↦
            let key = find-key id d.subscriptions s found in
            let at = subst (λ x. find_subscription x d.subscriptions ≡ some s) (sym key) found in
            run_addressed-IsSound now s r d e done r.address at live (ground arith) k
        | inr dead ↦ let is : d ≡ e = ground arith in subst IsSound is k
      ]
    ]
