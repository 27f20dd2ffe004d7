-- ===== src/Missions/Claim/Laws.antt =====
-- What a claim gives, and that it is given once: missions/missions.service.ts.
use limpeja_backend.Common.{ℕ, ◌≡◌, refl, sym, subst, Bool, true, not, ◌||◌, some, arith}
use limpeja_backend.Common.Lists.{find, is_some}
use limpeja_backend.Common.Outcome.{Outcome, ok, err, or_throw, ◌>>=◌, >>=-ok, throw_if-ok}
use limpeja_backend.Common.Text.{Text}
use limpeja_backend.Common.Int.{ℤ}
use limpeja_backend.Coupons.{Coupon, CouponError, Store as CouponStore}
use limpeja_backend.Coupons.Issue.{issue_coupon_from_mission}
use limpeja_backend.Loyalty.{
  LoyaltyError, Store as LoyaltyStore, mission_completed, plain, add_points,
}
use limpeja_backend.Missions.{
  coupon, points, Mission, MissionProgress, is_completed, has_mission_id, find_progress,
}
use limpeja_backend.Missions.Progress.{prune_mission_events}
use limpeja_backend.Missions.Progress.Laws.{find-update_progress, mission-id}
use limpeja_backend.Missions.Claim.{
  ClaimStore, progress_not_found, not_available, give_reward, claim_row, mark_claimed,
  claim_mission, reward_by, with_coupons, with_points,
}

give_reward-missions :
    (s : ClaimStore) (now : ℕ) (august : Bool) (rand user : Text) (m : Mission) (t : ClaimStore)
    → give_reward s now august rand user m ≡ ok t
    → (t.missions ≡ s.missions)
      × (m.reward_type ≡ coupon → t.loyalty ≡ s.loyalty)
      × (m.reward_type ≡ points → t.coupons ≡ s.coupons)
unfolding give_reward
give_reward-missions s now august rand user m t h = ground arith

-- What a claim that succeeds has tested and done.
pub claim_mission-ok :
    (s : ClaimStore) (now : ℕ) (august : Bool) (rand user : Text) (id : ℕ) (t : ClaimStore)
    → claim_mission s now august rand user id ≡ ok t
    → (p : MissionProgress) × (m : Mission) × (r : ClaimStore) × (find_progress user id
          s.missions.progresses
        ≡ some p)
      × (find (has_mission_id id) s.missions.missions ≡ some m)
      × (is_completed p.status ≡ true)
      × (give_reward s now august rand user m ≡ ok r)
      × (t ≡ mark_claimed user m now r)
unfolding claim_mission
claim_mission-ok s now august rand user id t h =
    let (p, row, more) =
      >>=-ok (or_throw (find_progress user id s.missions.progresses) progress_not_found) _ h in
    let (m, mission, tests) =
      >>=-ok (or_throw (find (has_mission_id id) s.missions.missions) progress_not_found) _ more in
    let (fit, rest) =
      throw_if-ok (not (is_completed p.status) || is_some p.claimed_at) not_available _ tests in
    let (r, gave, wrote) = >>=-ok (give_reward s now august rand user m) _ rest in
    (p, m, r, ground arith, ground arith, ground arith, gave, ground arith)

-- A reward is given once: after a claim that succeeds, every further claim of that user and
-- mission is refused, at any time.
pub claim_mission-once :
    (s : ClaimStore) (now later : ℕ) (august summer : Bool) (rand other user : Text) (id : ℕ)
    (t : ClaimStore)
    → claim_mission s now august rand user id ≡ ok t
    → claim_mission t later summer other user id ≡ err not_available
unfolding claim_mission mark_claimed prune_mission_events
claim_mission-once s now later august summer rand other user id t h =
    let (p, m, r, row, mission, full, gave, wrote) =
      claim_mission-ok s now august rand user id t h in
    let (same, _, _) = give_reward-missions s now august rand user m r gave in
    let key = mission-id id s.missions.missions m mission in
    let there : find_progress user id t.missions.progresses ≡ some (claim_row now p) =
      simp (wrote, key, same)
        (find-update_progress user id (claim_row now) s.missions.progresses p (λ r. (refl, refl))
          row) in
    let of : find (has_mission_id id) t.missions.missions ≡ some m =
      rw wrote (subst (λ z. find (has_mission_id id) z.missions ≡ some m) (sym same) mission) in
    simp (there, of) refl

with_coupons-ok :
    (s t : ClaimStore) (o : Outcome CouponError (Coupon × CouponStore))
    → with_coupons s (o >>= λ r. ok r.1) ≡ ok t
    → (t.loyalty ≡ s.loyalty) × ((c : Coupon) × (o ≡ ok (c, t.coupons)))
with_coupons-ok s t (ok (c, u)) h = (ground arith, (c, ground arith))
with_coupons-ok s t (err e) h = absurd cc

with_points-ok :
    (s t : ClaimStore) (o : Outcome LoyaltyError (ℤ × LoyaltyStore))
    → with_points s (o >>= λ r. ok r.1) ≡ ok t
    → (t.coupons ≡ s.coupons) × ((b : ℤ) × (o ≡ ok (b, t.loyalty)))
with_points-ok s t (ok (b, u)) h = (ground arith, (b, ground arith))
with_points-ok s t (err e) h = absurd cc

coupon_given :
    (s : ClaimStore) (now : ℕ) (august : Bool) (rand user : Text) (m : Mission) (r : ClaimStore)
    → m.reward_type ≡ coupon
    → give_reward s now august rand user m ≡ ok r
    → with_coupons s (
        issue_coupon_from_mission s.coupons now user
          (record { code = m.code; rewards_coupon = true; reward_value = m.reward_value })
          30
          rand
        >>= λ c. ok c.1)
      ≡ ok r
unfolding give_reward
coupon_given s now august rand user m r e h =
    subst (λ k. reward_by k s now august rand user m ≡ ok r) e h

points_given :
    (s : ClaimStore) (now : ℕ) (august : Bool) (rand user : Text) (m : Mission) (r : ClaimStore)
    → m.reward_type ≡ points
    → give_reward s now august rand user m ≡ ok r
    → with_points s (
        add_points s.loyalty now august user m.reward_value mission_completed (plain m.id) >>= λ b.
        ok b.1)
      ≡ ok r
unfolding give_reward
points_given s now august rand user m r e h =
    subst (λ k. reward_by k s now august rand user m ≡ ok r) e h

-- What a claim gives. The claim of a mission that rewards a coupon leaves the points and issues
-- the coupon of the mission to the user, for thirty days; that of a mission that rewards points
-- leaves the coupons and credits the points of the mission, under the mission as reference.
pub claim_mission-reward :
    (s : ClaimStore) (now : ℕ) (august : Bool) (rand user : Text) (id : ℕ) (t : ClaimStore)
    (m : Mission)
    → claim_mission s now august rand user id ≡ ok t
    → find (has_mission_id id) s.missions.missions ≡ some m
    → (m.reward_type ≡ coupon
        → (t.loyalty ≡ s.loyalty)
          × ((c : Coupon) × (issue_coupon_from_mission s.coupons now user
                  (record { code = m.code; rewards_coupon = true; reward_value = m.reward_value })
                  30
                  rand
                ≡ ok (c, t.coupons))))
      × (m.reward_type ≡ points
          → (t.coupons ≡ s.coupons)
            × ((b : ℤ) × (add_points s.loyalty now august user m.reward_value mission_completed
                    (plain m.id)
                  ≡ ok (b, t.loyalty))))
unfolding mark_claimed give_reward
claim_mission-reward s now august rand user id t m h mission =
    let (p, n, r, row, there, full, gave, wrote) = claim_mission-ok s now august rand user id t h in
    let same : n ≡ m = ground arith in
    let given = subst (λ z. give_reward s now august rand user z ≡ ok r) same gave in
    (
      λ e. rw wrote (with_coupons-ok s r _ (coupon_given s now august rand user m r e given)),
      λ e. rw wrote (with_points-ok s r _ (points_given s now august rand user m r e given)),
    )
