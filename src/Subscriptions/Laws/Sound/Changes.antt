-- ===== src/Subscriptions/Laws/Sound/Changes.antt =====
-- `update` and `create` of subscriptions/subscriptions.service.ts keep the bookings apart by period
-- and the stopped subscriptions without a job.
use limpeja_backend.Common.{
  ℕ, ◌≡◌, refl, sym, ap, Bool, true, false, not, ◌==◌, Option, none, some, List, [], ◌∷◌, ◌++◌,
  arith, inl, inr, Bool-cases, ltb, ◌∙◌, subst, ◌&&◌, if◌then◌else◌,
}
use limpeja_backend.Common.Lists.{any}
use limpeja_backend.Common.Outcome.{ok, throw_if-ok, Outcome-cases}
use limpeja_backend.Subscriptions.{
  Subscription, SubscriptionStatus, Desk, RunInput, UpdateDto, has_key, find_subscription,
  is_active, is_stopped, add_row, generate_recurring_booking, update, update_found, changed,
  jobs_after, create, schedule, is_job_of, forbidden, update_row, GenerationJob, or_kept,
}
use limpeja_backend.Subscriptions.Laws.{
  IsQuiet, update_row-IsQuiet, remove_job-own, remove_job-other, schedule-other,
}
use limpeja_backend.Subscriptions.Laws.Runs.{find-key}
use limpeja_backend.Subscriptions.Laws.Sound.{IsSound, active-not_stopped, generate-IsSound}

-- A change of a subscription: its own jobs, and those of the others.
jobs_after-own :
    (now : ℕ) (u : UpdateDto) (s : Subscription) (jobs : List GenerationJob)
    (o : Option SubscriptionStatus)
    → (is_stopped s.status ≡ true → any (is_job_of s.id) jobs ≡ false)
    → is_stopped (or_kept o s.status) ≡ true
    → any (is_job_of s.id) (jobs_after now s o jobs) ≡ false
jobs_after-own now u s jobs none own h = own h
jobs_after-own now u s jobs (some to) own h = rw h (remove_job-own s.id jobs)

jobs_after-other :
    (now id : ℕ) (s : Subscription) (jobs : List GenerationJob) (o : Option SubscriptionStatus)
    → (id == s.id) ≡ false
    → any (is_job_of id) jobs ≡ false
    → any (is_job_of id) (jobs_after now s o jobs) ≡ false
jobs_after-other now id s jobs none other h = h
jobs_after-other now id s jobs (some to) other h =
    let removed = remove_job-other s.id id jobs h in
    let queued = schedule-other now s.next_generation_date s.id id jobs other h in
    elim (Bool-cases (is_stopped to)) [
      | inl e ↦ rw e removed
      | inr e ↦ elim (Bool-cases (is_active to && not (is_active s.status))) [
        | inl f ↦ rw (e, f) queued
        | inr f ↦ rw (e, f) h
      ]
    ]

update_found-IsSound :
    (now id : ℕ) (u : UpdateDto) (user : ℕ) (is_client : Bool) (d e : Desk)
    (o : Option Subscription)
    → find_subscription id d.subscriptions ≡ o
    → update_found now u user is_client d o ≡ ok e
    → IsSound d
    → IsSound e
update_found-IsSound now id u user is_client d e none found h k = cc
update_found-IsSound now id u user is_client d e (some s) found h (one, quiet) =
    let key = find-key id d.subscriptions s found in
    let at = subst (λ x. find_subscription x d.subscriptions ≡ some s) (sym key) found in
    let (_, h2) = throw_if-ok (is_client && not (s.client_id == user)) forbidden _ h in
    let is : record d {
      subscriptions = update_row s.id (changed u) d.subscriptions;
      jobs = jobs_after now s u.status d.jobs;
    }
        ≡ e =
      cc in
    subst IsSound is (
      one,
      update_row-IsQuiet s.id (changed u) d.subscriptions s d.jobs _ (λ r. refl) at
          (jobs_after-own now u s d.jobs u.status (quiet s.id s at))
          (λ x other k. jobs_after-other now x s d.jobs u.status other k) quiet,
    )

pub update-IsSound :
    (now id : ℕ) (u : UpdateDto) (user : ℕ) (is_client : Bool) (d e : Desk)
    → update now id u user is_client d ≡ ok e
    → IsSound d
    → IsSound e
unfolding update
update-IsSound now id u user is_client d e h k =
    update_found-IsSound now id u user is_client d e (find_subscription id d.subscriptions) refl h k

find-new_own :
    (ss : List Subscription) (s : Subscription)
    → find_subscription s.id ss ≡ none
    → find_subscription s.id (ss ++ s ∷ []) ≡ some s
find-new_own [] s h = ground arith
find-new_own (r ∷ rs) s h = ground (arith, find-new_own rs s)

find-new_other :
    (id : ℕ) (ss : List Subscription) (s : Subscription)
    → (id == s.id) ≡ false
    → find_subscription id (ss ++ s ∷ []) ≡ find_subscription id ss
find-new_other id [] s h = ground arith
find-new_other id (r ∷ rs) s h =
    ap (λ x. if has_key id r then some r else x) (find-new_other id rs s h)

new-IsQuiet :
    (ss : List Subscription) (s : Subscription) (jobs later : List GenerationJob)
    → find_subscription s.id ss ≡ none
    → is_active s.status ≡ true
    → ((id : ℕ)
        → (id == s.id) ≡ false
        → any (is_job_of id) jobs ≡ false
        → any (is_job_of id) later ≡ false)
    → IsQuiet ss jobs
    → IsQuiet (ss ++ s ∷ []) later
new-IsQuiet ss s jobs later fresh live others quiet id r h stop = elim (Bool-cases (id == s.id)) [
  | inl e ↦
      let own = find-new_own ss s fresh in
      let at : id ≡ s.id = ground arith in
      let is : r ≡ s = ground (arith, at, own, h) in
      let go = active-not_stopped s.status live in
      absurd (let stopped : is_stopped s.status ≡ true = rw (sym is) stop in cc)
  | inr e ↦ others id e (quiet id r (sym (find-new_other id ss s e) ∙ h) stop)
]

pub create-IsSound :
    (now : ℕ) (has_rows : Bool) (s : Subscription) (r : RunInput) (d : Desk)
    → find_subscription s.id d.subscriptions ≡ none
    → is_active s.status ≡ true
    → IsSound d
    → IsSound (create now has_rows s r d).0
unfolding create
create-IsSound now has_rows s r d fresh live (one, quiet) = elim (Bool-cases has_rows) [
  | inl e ↦ elim (Bool-cases (ltb now s.next_generation_date)) [
    | inl f ↦
        let later =
          new-IsQuiet d.subscriptions s d.jobs (schedule now s.id s.next_generation_date d.jobs)
            fresh live
            (λ id other h. schedule-other now s.next_generation_date s.id id d.jobs other h)
            quiet in
        rw (e, f) (one, later)
    | inr f ↦
        let added : IsSound (add_row s d) =
          (one, new-IsQuiet d.subscriptions s d.jobs d.jobs fresh live (λ id other h. h) quiet) in
        elim (Outcome-cases (generate_recurring_booking now s.id r (add_row s d))) [
          | inl ((b, x), g) ↦ rw (e, f, g) (generate-IsSound now s.id r (add_row s d) x b g added)
          | inr (x, g) ↦ rw (e, f, g) added
        ]
  ]
  | inr e ↦ rw e (one, quiet)
]
