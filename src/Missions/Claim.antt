-- ===== src/Missions/Claim.antt =====
-- `claimMission` of missions/missions.service.ts: one transaction, which gives the reward through
-- the coupons or the points and marks the progress. What it throws leaves the stores as they were.
pub mod Laws
use limpeja_backend.Common.{ℕ, Bool, true, not, ◌||◌, Option, none, some}
use limpeja_backend.Common.Lists.{find, is_some}
use limpeja_backend.Common.Text.{Text}
use limpeja_backend.Common.Outcome.{Outcome, ok, err, ◌>>=◌, ◌>>◌, throw_if, or_throw}
use limpeja_backend.Coupons.{Store as CouponStore, CouponError}
use limpeja_backend.Coupons.Issue.{issue_coupon_from_mission}
use limpeja_backend.Loyalty.{
  Store as LoyaltyStore, LoyaltyError, mission_completed, plain, add_points,
}
use limpeja_backend.Missions.{
  RewardType, coupon, points, claimed, Mission, MissionProgress, Store, is_completed,
  has_mission_id, find_progress, update_progress,
}
use limpeja_backend.Missions.Progress.{write, prune_mission_events}

pub record ClaimStore : Type 0 where
  pub missions : Store
  pub coupons : CouponStore
  pub loyalty : LoyaltyStore

pub data ClaimError : Type 0 where
  progress_not_found not_available : ClaimError
  coupon_refused : CouponError → ClaimError
  points_refused : LoyaltyError → ClaimError

abbrev pub with_coupons :
    ClaimStore → Outcome CouponError (CouponStore) → Outcome ClaimError ClaimStore
with_coupons s (ok c) = ok (record s { coupons = c })
with_coupons s (err e) = err (coupon_refused e)

abbrev pub with_points :
    ClaimStore → Outcome LoyaltyError (LoyaltyStore) → Outcome ClaimError ClaimStore
with_points s (ok l) = ok (record s { loyalty = l })
with_points s (err e) = err (points_refused e)

abbrev pub reward_by :
    RewardType → ClaimStore → ℕ → Bool → Text → Text → Mission → Outcome ClaimError ClaimStore
reward_by coupon s now august rand user m = with_coupons s (
    issue_coupon_from_mission s.coupons now user
      (record { code = m.code; rewards_coupon = true; reward_value = m.reward_value }) 30 rand
    >>= λ r. ok r.1)
reward_by points s now august rand user m = with_points s (
    add_points s.loyalty now august user m.reward_value mission_completed (plain m.id) >>= λ r.
    ok r.1)

-- The reward; `rand` is the random part of a code, and `august` says whether it is August.
unfoldable pub give_reward :
    ClaimStore → ℕ → Bool → Text → Text → Mission → Outcome ClaimError ClaimStore
give_reward s now august rand user m = reward_by m.reward_type s now august rand user m

abbrev pub claim_row : ℕ → MissionProgress → MissionProgress
claim_row now p = record p { status = claimed; claimed_at = some now }

-- The writes that end the transaction.
unfoldable pub mark_claimed : Text → Mission → ℕ → ClaimStore → ClaimStore
mark_claimed user m now s = record s {
  missions =
      prune_mission_events user m.event_name now (write user m.id (claim_row now) s.missions);
}

-- `claimMission`; a progress always has its mission.
unfoldable pub claim_mission :
    ClaimStore → ℕ → Bool → Text → Text → ℕ → Outcome ClaimError ClaimStore
claim_mission s now august rand user id = do
  p ← or_throw (find_progress user id s.missions.progresses) progress_not_found
  m ← or_throw (find (has_mission_id id) s.missions.missions) progress_not_found
  throw_if (not (is_completed p.status) || is_some p.claimed_at) not_available
  t ← give_reward s now august rand user m
  ok (mark_claimed user m now t)
