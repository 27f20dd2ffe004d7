-- ===== src/Incidents/Laws.antt =====
-- Who may claim, and what a claim keeps: incidents/incidents.service.ts.
use limpeja_backend.Common.{
  ℕ, ◌+◌, ◌≤◌, ◌≡◌, ◌↔◌, refl, ltb, Bool, true, false, not, ◌&&◌, ◌⊎◌, Option, none, some, List,
  arith, inl, inr, subst, if◌then◌else◌, Bool-cases,
}
use limpeja_backend.Common.Lists.{find}
use limpeja_backend.Common.Text.{Text}
use limpeja_backend.Common.Outcome.{ok, ◌>>=◌, throw_if, or_throw, throw_if-ok, >>=-ok}
use limpeja_backend.Bookings.Rows.{BookingProof}
use limpeja_backend.Coupons.Issue.{day}
use limpeja_backend.Payouts.Hold.{BookingRow}
use limpeja_backend.Incidents.{
  Insurance, Booking, Store, ClaimRequest, IncidentError, not_found, forbidden, not_completed,
  window_closed, no_insurance, checkout_missing, video_missing, has_id, is_participant, is_checkout,
  wants_video, check_proof, check_claim, add_claim, create_claim,
}

-- The proof of the end is there, with a video for the higher plans, or is not asked for.
abbrev pub IsProven : Insurance → List BookingProof → Type 0
IsProven i proofs =
    (i.proof_required ≡ false)
    ⊎ ((p : BookingProof) × (find is_checkout proofs ≡ some p)
        × ((wants_video i.plan_id && not p.has_video) ≡ false))

-- A user may claim on a booking and its insurance.
abbrev pub MayClaim : ℕ → ℕ → Booking → Insurance → Type 0
MayClaim now user b i =
    (is_participant user b ≡ true)
    × ((done : ℕ) × (b.completed_at ≡ some done) × (now ≤ done + day))
    × (b.insurance ≡ some i)
    × IsProven i b.proofs

or_throw-ok {ℓ} :
    {A : Type ℓ} (o : Option A) (e : IncidentError) (a : A) → or_throw o e ≡ ok a → o ≡ some a
or_throw-ok none e a h = absurd cc
or_throw-ok (some b) e a h = ground arith

throw_if-passes : (test : Bool) (e : IncidentError) → throw_if test e ≡ ok tt → test ≡ false
throw_if-passes true e h = absurd cc
throw_if-passes false e h = refl

check_proof-ok :
    (i : Insurance) (proofs : List BookingProof) → check_proof i proofs ≡ ok tt → IsProven i proofs
unfolding check_proof
check_proof-ok i proofs h = elim (Bool-cases i.proof_required) [
  | inl e ↦
      let (p, found, video) = >>=-ok (or_throw (find is_checkout proofs) checkout_missing) _ (
        subst
          (λ c.
            (if c
              then (or_throw (find is_checkout proofs) checkout_missing >>= λ p.
                  throw_if (wants_video i.plan_id && not p.has_video) video_missing)
              else ok tt)
            ≡ ok tt)
          e h) in
      inr (
        p,
        or_throw-ok (find is_checkout proofs) checkout_missing p found,
        throw_if-passes (wants_video i.plan_id && not p.has_video) video_missing video,
      )
  | inr e ↦ inl e
]

check_proof-may :
    (i : Insurance) (proofs : List BookingProof) → IsProven i proofs → check_proof i proofs ≡ ok tt
unfolding check_proof
check_proof-may i proofs (inl e) = simp e refl
check_proof-may i proofs (inr (p, found, video)) = elim (Bool-cases i.proof_required) [
  | inl e ↦ simp (e, found, video) refl
  | inr e ↦ simp e refl
]

check_claim-ok :
    (now user : ℕ) (b : Booking) (i : Insurance)
    → check_claim now user b ≡ ok i
    → MayClaim now user b i
unfolding check_claim
check_claim-ok now user b i h =
    let (part, k1) = throw_if-ok (not (is_participant user b)) forbidden _ h in
    let (done, at, k2) = >>=-ok (or_throw b.completed_at not_completed) _ k1 in
    let (soon, k3) = throw_if-ok (ltb (done + day) now) window_closed _ k2 in
    let (j, insured, k4) = >>=-ok (or_throw b.insurance no_insurance) _ k3 in
    let (u, proven, k5) = >>=-ok (check_proof j b.proofs) _ k4 in
    let same : j ≡ i = ground arith in
    (
      ground arith,
      (done, or_throw-ok b.completed_at not_completed done at, ground arith),
      or_throw-ok b.insurance no_insurance i
          (subst (λ v. or_throw b.insurance no_insurance ≡ ok v) same insured),
      subst (λ v. IsProven v b.proofs) same (check_proof-ok j b.proofs proven),
    )

check_claim-may :
    (now user : ℕ) (b : Booking) (i : Insurance)
    → MayClaim now user b i
    → check_claim now user b ≡ ok i
unfolding check_claim
check_claim-may now user b i (part, (done, at, soon), insured, proven) =
    let open_ : ltb (done + day) now ≡ false = ground arith in
    simp (part, at, open_, insured, check_proof-may i b.proofs proven) refl

create_claim-may :
    (s : Store) (now user : ℕ) (r : ClaimRequest) (row : Option BookingRow) (b : Booking)
    (i : Insurance) (t : Store)
    → find (has_id r.booking_id) s.bookings ≡ some b
    → b.insurance ≡ some i
    → create_claim s now user r row ≡ ok t
    → MayClaim now user b i
unfolding create_claim
create_claim-may s now user r row b i t found insured h =
    let (c, read, k) = >>=-ok (or_throw (find (has_id r.booking_id) s.bookings) not_found) _ h in
    let (j, checked, k2) = >>=-ok (check_claim now user c) _ k in
    let there = or_throw-ok (find (has_id r.booking_id) s.bookings) not_found c read in
    let same : c ≡ b = ground arith in
    let may : MayClaim now user b j =
      subst (λ v. MayClaim now user v j) same (check_claim-ok now user c j checked) in
    let (_, _, here, _) = may in
    let equal : j ≡ i = ground arith in subst (λ v. MayClaim now user b v) equal may

-- On an insured booking and with fit attachments, a claim is accepted, with its row and the hold on
-- the provider's earning written, exactly if the user takes part in the booking, it was completed at
-- most a day ago, and its end is proven as the insurance asks.
pub create_claim_iff :
    (s : Store) (now user : ℕ) (r : ClaimRequest) (row : Option BookingRow) (b : Booking)
    (i : Insurance) (files : List Text)
    → find (has_id r.booking_id) s.bookings ≡ some b
    → r.attachments ≡ ok files
    → b.insurance ≡ some i
    → (create_claim s now user r row ≡ ok (add_claim s now user r row i files))
      ↔ MayClaim now user b i
unfolding create_claim
create_claim_iff s now user r row b i files found fit insured = (
  λ h. create_claim-may s now user r row b i (add_claim s now user r row i files) found insured h,
  λ may. simp (found, check_claim-may now user b i may, fit) refl,
)
