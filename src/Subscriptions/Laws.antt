-- ===== src/Subscriptions/Laws.antt =====
-- What every run and every change of a subscription keeps.
pub mod History
pub mod Runs
pub mod Sound
pub mod Unread
use limpeja_backend.Common.{
  ℕ, ◌+◌, ◌≡◌, refl, sym, ap, Bool, true, false, not, ◌&&◌, ◌==◌, Option, none, some, List, [], ◌∷◌,
  ◌++◌, arith, inl, inr, Bool-cases, subst, ◌∙◌, if◌then◌else◌,
}
use limpeja_backend.Common.Lists.{any, any-new, any-filter, find, filter}
use limpeja_backend.Subscriptions.Period.{PeriodId}
use limpeja_backend.Subscriptions.{
  Subscription, GeneratedBooking, GenerationJob, has_key, find_subscription, update_row, is_job_of,
  remove_job, schedule, is_of_period, is_stopped,
}

-- No two bookings were made for one period of a subscription.
abbrev pub HasOnePerPeriod : List GeneratedBooking → Type 0
HasOnePerPeriod [] = Unit
HasOnePerPeriod (g ∷ gs) =
    (any (is_of_period g.subscription_id g.period_id) gs ≡ false) × HasOnePerPeriod gs

of_period_sym :
    (g h : GeneratedBooking)
    → is_of_period h.subscription_id h.period_id g ≡ false
    → is_of_period g.subscription_id g.period_id h ≡ false
of_period_sym g h e = ground arith

pub added-HasOnePerPeriod :
    (gs : List GeneratedBooking) (g : GeneratedBooking)
    → any (is_of_period g.subscription_id g.period_id) gs ≡ false
    → HasOnePerPeriod gs
    → HasOnePerPeriod (gs ++ g ∷ [])
added-HasOnePerPeriod [] g h k = (refl, tt)
added-HasOnePerPeriod (f ∷ fs) g h (k, ks) = (
  any-new (is_of_period f.subscription_id f.period_id) fs g k (of_period_sym f g (ground arith)),
  added-HasOnePerPeriod fs g (ground arith) ks,
)

-- A subscription that is paused or canceled has no job.
abbrev pub IsQuiet : List Subscription → List GenerationJob → Type 0
IsQuiet ss jobs =
    (id : ℕ) (s : Subscription)
    → find_subscription id ss ≡ some s
    → is_stopped s.status ≡ true
    → any (is_job_of id) jobs ≡ false

find-update_row :
    (k : ℕ) (change : Subscription → Subscription) (ss : List Subscription) (s : Subscription)
    → ((r : Subscription) → (change r).id ≡ r.id)
    → find_subscription k ss ≡ some s
    → find_subscription k (update_row k change ss) ≡ some (change s)
unfolding update_row
find-update_row k change [] s keeps h = cc
find-update_row k change (r ∷ rs) s keeps h = elim (Bool-cases (has_key k r)) [
  | inl e ↦
      let kept : has_key k (change r) ≡ true = rw (keeps r) e in
      let found : r ≡ s = ground arith in rw e (rw kept (ap (λ x. some (change x)) found))
  | inr e ↦ rw e (rw e (find-update_row k change rs s keeps (ground arith)))
]

find-update_other :
    (id k : ℕ) (change : Subscription → Subscription) (ss : List Subscription)
    → ((r : Subscription) → (change r).id ≡ r.id)
    → (id == k) ≡ false
    → find_subscription id (update_row k change ss) ≡ find_subscription id ss
unfolding update_row
find-update_other id k change [] keeps h = refl
find-update_other id k change (r ∷ rs) keeps h =
    let rest = find-update_other id k change rs keeps h in
    elim (Bool-cases (has_key k r)) [
      | inl e ↦
          let moved : has_key id (change r) ≡ false = rw (keeps r) (ground arith) in
          let old : has_key id r ≡ false = ground arith in rw e (rw moved (rw old rest))
      | inr e ↦ rw e (ap (λ x. if has_key id r then some r else x) rest)
    ]

pub update_row-IsQuiet :
    (k : ℕ) (change : Subscription → Subscription) (ss : List Subscription) (s : Subscription)
    (jobs later : List GenerationJob)
    → ((r : Subscription) → (change r).id ≡ r.id)
    → find_subscription k ss ≡ some s
    → (is_stopped (change s).status ≡ true → any (is_job_of k) later ≡ false)
    → ((id : ℕ)
        → (id == k) ≡ false
        → any (is_job_of id) jobs ≡ false
        → any (is_job_of id) later ≡ false)
    → IsQuiet ss jobs
    → IsQuiet (update_row k change ss) later
update_row-IsQuiet k change ss s jobs later keeps found own others quiet id r h stop =
    elim (Bool-cases (id == k)) [
      | inl e ↦
          let new = find-update_row k change ss s keeps found in
          let at : id ≡ k = ground arith in
          let is : r ≡ change s = ground (arith, at, h, new) in rw at (own (rw (sym is) stop))
      | inr e ↦
          let same = find-update_other id k change ss keeps e in
          others id e (quiet id r (sym same ∙ h) stop)
    ]

pub remove_job-own :
    (k : ℕ) (jobs : List GenerationJob) → any (is_job_of k) (remove_job k jobs) ≡ false
remove_job-own k [] = refl
remove_job-own k (j ∷ js) = let rest = remove_job-own k js in ground arith

pub remove_job-other :
    (k id : ℕ) (jobs : List GenerationJob)
    → any (is_job_of id) jobs ≡ false
    → any (is_job_of id) (remove_job k jobs) ≡ false
remove_job-other k id jobs h = any-filter (is_job_of id) (λ j. not (is_job_of k j)) jobs h

pub schedule-other :
    (now target k id : ℕ) (jobs : List GenerationJob)
    → (id == k) ≡ false
    → any (is_job_of id) jobs ≡ false
    → any (is_job_of id) (schedule now k target jobs) ≡ false
unfolding schedule
schedule-other now target k id jobs e h =
    any-new (is_job_of id) (remove_job k jobs) _ (remove_job-other k id jobs h) (ground arith)
