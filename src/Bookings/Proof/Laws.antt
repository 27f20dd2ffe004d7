-- ===== src/Bookings/Proof/Laws.antt =====
-- What a proof that has been sent stands for: bookings/bookings.service.ts.
use limpeja_backend.Common.{
  ℕ, ◌≡◌, refl, Bool, true, false, not, ◌&&◌, ◌==◌, Option, none, some, List, [], ◌∷◌, ◌++◌, arith,
  ◌⊎◌, inl, inr, Bool-cases,
}
use limpeja_backend.Common.Lists.{any-last, any, find}
use limpeja_backend.Common.Text.{is_blank}
use limpeja_backend.Common.Outcome.{ok, err, throw_if-ok}
use limpeja_backend.Bookings.Rows.{
  BookingProof, BookingProofType, checkin, checkout, Booking, Store, same_type, find_booking,
  ensure_proof_recorded, needs_proof,
}
use limpeja_backend.Bookings.Rows.Laws.{find_booking-id}
use limpeja_backend.Bookings.Visit.{plan_needs_video, checkout_recorded}
use limpeja_backend.Bookings.Proof.{
  ProofPayload, not_provider, no_photo, no_video, already_sent, is_empty, lacks_video, holds_video,
  is_proof, proof_of, requires_video, with_proof, record_proof, submit_proof,
}

find-new :
    (test : BookingProof → Bool) (ps : List BookingProof) (p : BookingProof)
    → any test ps ≡ false
    → test p ≡ true
    → find test (ps ++ p ∷ []) ≡ some p
find-new test [] p h k = ground arith
find-new test (q ∷ ps) p h k = ground (arith, find-new test ps p)

find-other :
    (test : BookingProof → Bool) (ps : List BookingProof) (p : BookingProof)
    → test p ≡ false
    → find test (ps ++ p ∷ []) ≡ find test ps
find-other test [] p k = ground arith
find-other test (q ∷ ps) p k = ground (arith, find-other test ps p k)

same_type_refl : (type : BookingProofType) → same_type type type ≡ true
same_type_refl checkin = refl
same_type_refl checkout = refl

is_proof-proof_of :
    (id : ℕ) (type : BookingProofType) (payload : ProofPayload)
    → is_proof id type (proof_of id type payload) ≡ true
is_proof-proof_of id type payload = ground (arith, same_type_refl type)

record_proof-ok :
    (s : Store) (id user : ℕ) (type : BookingProofType) (payload : ProofPayload) (b : Booking)
    (t : Store)
    → record_proof s id user type payload b ≡ ok t
    → ((not (b.provider_user == user)) ≡ false)
      × (is_empty payload.photos ≡ false)
      × ((requires_video b type && lacks_video payload.video_url) ≡ false)
      × (any (is_proof id type) s.proofs ≡ false)
      × (t ≡ with_proof s id type payload)
unfolding record_proof
record_proof-ok s id user type payload b t h =
    let (own, k1) = throw_if-ok (not (b.provider_user == user)) not_provider _ h in
    let (photo, k2) = throw_if-ok (is_empty payload.photos) no_photo _ k1 in
    let (video, k3) =
      throw_if-ok (requires_video b type && lacks_video payload.video_url) no_video _ k2 in
    let (fresh, k4) = throw_if-ok (any (is_proof id type) s.proofs) already_sent _ k3 in
    (own, photo, video, fresh, ground arith)

lacks-holds : (url : Option (List ℕ)) → lacks_video url ≡ false → holds_video url ≡ true
unfolding is_blank
lacks-holds none h = absurd cc
lacks-holds (some []) h = absurd cc
lacks-holds (some (c ∷ cs)) h = refl

-- A video that the plan requires is there.
video_kept :
    (b : Booking) (payload : ProofPayload)
    → (requires_video b checkout && lacks_video payload.video_url) ≡ false
    → (plan_needs_video b.insurance && not (holds_video payload.video_url)) ≡ false
video_kept b payload h = ground (arith, lacks-holds payload.video_url)

checkout-recorded :
    (t : Store) (b : Booking) (p : BookingProof)
    → ensure_proof_recorded t b.id checkout ≡ ok p
    → (plan_needs_video b.insurance && not p.has_video) ≡ false
    → checkout_recorded t b ≡ ok tt
checkout-recorded t b p found video = elim (Bool-cases (needs_proof b.insurance)) [
  | inl e ↦ simp (e, found, video) refl
  | inr e ↦ simp e refl
]

submit_proof-ok :
    (s : Store) (id user : ℕ) (type : BookingProofType) (payload : ProofPayload) (b : Booking)
    (t : Store)
    → find_booking id s.bookings ≡ some b
    → submit_proof s id user type payload ≡ ok t
    → record_proof s id user type payload b ≡ ok t
unfolding submit_proof
submit_proof-ok s id user type payload b t found sent = ground arith

read_new :
    (s : Store) (id : ℕ) (type : BookingProofType) (payload : ProofPayload)
    → any (is_proof id type) s.proofs ≡ false
    → ensure_proof_recorded (with_proof s id type payload) id type ≡ ok (proof_of id type payload)
unfolding ensure_proof_recorded
read_new s id type payload fresh =
    simp
      (find-new (is_proof id type) s.proofs (proof_of id type payload) fresh
        (is_proof-proof_of id type payload))
      refl

read_other :
    (s : Store) (id : ℕ) (type : BookingProofType) (payload : ProofPayload) (other : ℕ)
    (kind : BookingProofType)
    → is_proof other kind (proof_of id type payload) ≡ false
    → ensure_proof_recorded (with_proof s id type payload) other kind
      ≡ ensure_proof_recorded s other kind
unfolding ensure_proof_recorded
read_other s id type payload other kind differs =
    simp (find-other (is_proof other kind) s.proofs (proof_of id type payload) differs) refl

sent_again :
    (s : Store) (id user : ℕ) (type : BookingProofType) (payload : ProofPayload) (b : Booking)
    → find_booking id s.bookings ≡ some b
    → (not (b.provider_user == user)) ≡ false
    → is_empty payload.photos ≡ false
    → (requires_video b type && lacks_video payload.video_url) ≡ false
    → submit_proof (with_proof s id type payload) id user type payload ≡ err already_sent
unfolding submit_proof record_proof
sent_again s id user type payload b found own photo video =
    let taken =
      any-last (is_proof id type) s.proofs (proof_of id type payload)
        (is_proof-proof_of id type payload) in
    simp (found, own, photo, video, taken) refl

checkout_or_not :
    (s : Store) (id : ℕ) (type : BookingProofType) (payload : ProofPayload) (b : Booking)
    → b.id ≡ id
    → any (is_proof id type) s.proofs ≡ false
    → (requires_video b type && lacks_video payload.video_url) ≡ false
    → (same_type type checkout ≡ false)
      ⊎ (checkout_recorded (with_proof s id type payload) b ≡ ok tt)
checkout_or_not s id checkin payload b same fresh video = inl refl
checkout_or_not s id checkout payload b same fresh video = inr (
    checkout-recorded (with_proof s id checkout payload) b (proof_of id checkout payload)
      (rw same (read_new s id checkout payload fresh)) (video_kept b payload video))

-- A proof that is accepted for a booking is the one that the service then reads for it, cannot be
-- sent again, hides no proof of another booking or type, and, at the end of the service, satisfies
-- what completing the booking asks of its proof.
pub submit_proof-recorded :
    (s : Store) (id user : ℕ) (type : BookingProofType) (payload : ProofPayload) (b : Booking)
    (t : Store) (other : ℕ) (kind : BookingProofType)
    → find_booking id s.bookings ≡ some b
    → submit_proof s id user type payload ≡ ok t
    → is_proof other kind (proof_of id type payload) ≡ false
    → (ensure_proof_recorded t id type ≡ ok (proof_of id type payload))
      × (submit_proof t id user type payload ≡ err already_sent)
      × (ensure_proof_recorded t other kind ≡ ensure_proof_recorded s other kind)
      × ((same_type type checkout ≡ false) ⊎ (checkout_recorded t b ≡ ok tt))
submit_proof-recorded s id user type payload b t other kind found sent differs =
    let (own, photo, video, fresh, wrote) =
      record_proof-ok s id user type payload b t
        (submit_proof-ok s id user type payload b t found sent) in
    let same = find_booking-id id s.bookings b found in
    (
      rw wrote (read_new s id type payload fresh),
      rw wrote (sent_again s id user type payload b found own photo video),
      rw wrote (read_other s id type payload other kind differs),
      rw wrote (checkout_or_not s id type payload b same fresh video),
    )
