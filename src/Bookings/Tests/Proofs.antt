-- ===== src/Bookings/Tests/Proofs.antt =====
-- Runs of the proofs of a service.
use limpeja_backend.Common.{◌≡◌, refl, true, false, some, [], ◌∷◌, ◌⊎◌}
use limpeja_backend.Common.Text.{codes, is_blank}
use limpeja_backend.Common.Outcome.{ok, err}
use limpeja_backend.Bookings.Status.{started}
use limpeja_backend.Bookings.Rows.{
  Booking, Store, premium, checkin, checkout, same_type, ensure_proof_recorded,
}
use limpeja_backend.Bookings.Visit.{checkout_recorded}
use limpeja_backend.Bookings.Proof.{
  ProofPayload, already_sent, no_video, proof_of, with_proof, record_proof, submit_proof,
}
use limpeja_backend.Bookings.Proof.Laws.{submit_proof-recorded}
use limpeja_backend.Bookings.Tests.Rows.{cleaning_at, store_of}

abbrev insured : Booking
insured = record (cleaning_at started) {
  insurance = some (record { plan_id = premium; proof_required = true });
}

abbrev before : Store
before = store_of (insured ∷ [])

abbrev filmed : ProofPayload
filmed = record { photos = codes "a.jpg" ∷ []; video_url = some (codes "a.mp4") }

abbrev unfilmed : ProofPayload
unfilmed = record { photos = codes "a.jpg" ∷ []; video_url = some (codes " ") }

abbrev sent : Store
sent = with_proof before 1 checkout filmed

sends : submit_proof before 1 5 checkout filmed ≡ ok sent
unfolding submit_proof record_proof is_blank
sends = refl

wants_video : submit_proof before 1 5 checkout unfilmed ≡ err no_video
unfolding submit_proof record_proof is_blank
wants_video = refl

submit_proof-recorded_example :
    (ensure_proof_recorded sent 1 checkout ≡ ok (proof_of 1 checkout filmed))
    × (submit_proof sent 1 5 checkout filmed ≡ err already_sent)
    × (ensure_proof_recorded sent 1 checkin ≡ ensure_proof_recorded before 1 checkin)
    × ((same_type checkout checkout ≡ false) ⊎ (checkout_recorded sent insured ≡ ok tt))
submit_proof-recorded_example =
    submit_proof-recorded before 1 5 checkout filmed insured sent 1 checkin refl sends refl
