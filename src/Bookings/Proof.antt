-- ===== src/Bookings/Proof.antt =====
-- `submitProof` of bookings/bookings.service.ts: the proofs of an insured service. The pair of the
-- booking and the type is unique, so the database refuses a second row for one. Of a proof the row
-- keeps whether it has a video, which is all that is read of it; the position, the hashes and the
-- times, which are only stored, are left out.
pub mod Laws
use limpeja_backend.Common.{
  ℕ, Bool, true, false, not, ◌&&◌, ◌==◌, Option, none, some, List, [], ◌∷◌, ◌++◌,
}
use limpeja_backend.Common.Lists.{any}
use limpeja_backend.Common.Text.{Text, is_blank}
use limpeja_backend.Common.Outcome.{Outcome, ok, err, ◌>>=◌, ◌>>◌, throw_if, or_throw}
use limpeja_backend.Bookings.Rows.{
  BookingProof, BookingProofType, checkin, checkout, Booking, Store, same_type, find_booking,
  notify, proof_sent,
}
use limpeja_backend.Bookings.Visit.{plan_needs_video}

-- `BookingProofPayload`
pub record ProofPayload : Type 0 where
  pub photos : List Text
  pub video_url : Option Text

pub data ProofError : Type 0 where
  no_booking not_provider no_photo no_video already_sent : ProofError

abbrev pub is_empty : List Text → Bool
is_empty [] = true
is_empty (t ∷ ts) = false

-- `!payload.videoUrl?.trim()`
abbrev pub lacks_video : Option Text → Bool
lacks_video none = true
lacks_video (some url) = is_blank url

-- `!!proof.videoUrl`
abbrev pub holds_video : Option Text → Bool
holds_video none = false
holds_video (some []) = false
holds_video (some (c ∷ cs)) = true

abbrev pub is_proof : ℕ → BookingProofType → BookingProof → Bool
is_proof id type p = p.booking_id == id && same_type p.type type

abbrev pub proof_of : ℕ → BookingProofType → ProofPayload → BookingProof
proof_of id type payload = record {
  booking_id = id;
  type = type;
  has_video = holds_video payload.video_url;
}

-- `requiresVideo`
abbrev pub requires_video : Booking → BookingProofType → Bool
requires_video b type = same_type type checkout && plan_needs_video b.insurance

abbrev pub with_proof : Store → ℕ → BookingProofType → ProofPayload → Store
with_proof s id type payload =
    notify (proof_sent id type) (record s { proofs = s.proofs ++ proof_of id type payload ∷ [] })

-- The guards of a booking that has been read, and the row.
unfoldable pub record_proof :
    Store → ℕ → ℕ → BookingProofType → ProofPayload → Booking → Outcome ProofError Store
record_proof s id user type payload b = do
  throw_if (not (b.provider_user == user)) not_provider
  throw_if (is_empty payload.photos) no_photo
  throw_if (requires_video b type && lacks_video payload.video_url) no_video
  throw_if (any (is_proof id type) s.proofs) already_sent
  ok (with_proof s id type payload)

-- `submitProof`
unfoldable pub submit_proof :
    Store → ℕ → ℕ → BookingProofType → ProofPayload → Outcome ProofError Store
submit_proof s id user type payload =
    or_throw (find_booking id s.bookings) no_booking >>= record_proof s id user type payload
