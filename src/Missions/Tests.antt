-- ===== src/Missions/Tests.antt =====
-- Runs of the missions.
use limpeja_backend.Common.{ℕ, ◌+◌, ◌≤◌, ◌≡◌, ◌↔◌, refl, true, false, some, none, [], ◌∷◌, arith}
use limpeja_backend.Common.Text.{codes}
use limpeja_backend.Common.Outcome.{ok, err}
use limpeja_backend.Loyalty.{add_points}
use limpeja_backend.Missions.{
  count_event, within_window, points, MissionStatus, active, completed, claimed, Mission,
  MissionProgress, Store, find_progress, update_progress,
}
use limpeja_backend.Missions.Progress.{track_event, prune_mission_events}
use limpeja_backend.Missions.Progress.Laws.{track_event-claimed}
use limpeja_backend.Missions.Progress.Count.{apply_all, apply_all-counts}
use limpeja_backend.Missions.Claim.{
  ClaimStore, not_available, give_reward, mark_claimed, claim_mission,
}
use limpeja_backend.Missions.Claim.Laws.{claim_mission-once}

abbrev three_bookings : Mission
three_bookings = record {
  id = 1;
  code = codes "THREE";
  kind = count_event;
  event_name = 9;
  target_value = 3;
  time_window_days = none;
  reward_type = points;
  reward_value = 50;
  is_active = true;
}

abbrev weekly : Mission
weekly = record three_bookings { id = 2; kind = within_window; time_window_days = some 7 }

abbrev progress_of : MissionStatus → ℕ → MissionProgress
progress_of status value = record {
  user_id = codes "ana";
  mission_id = 1;
  current_value = value;
  status = status;
  last_event_at = none;
  completed_at = none;
  claimed_at = none;
}

abbrev store_of : MissionProgress → Store
store_of p = record {
  missions = three_bookings ∷ weekly ∷ [];
  progresses = p ∷ [];
  events = record { user_id = codes "ana"; name = 9; created_at = 50 } ∷ [];
}

track_event-claimed_example :
    find_progress
      (codes "ana")
      1
      (track_event (store_of (progress_of claimed 3)) (codes "ana") 9 70).1.progresses
    ≡ some (progress_of claimed 3)
track_event-claimed_example =
    track_event-claimed (store_of (progress_of claimed 3)) (codes "ana") (codes "ana") 9 1 70
      (progress_of claimed 3) refl refl

apply_all-counts_example :
    (q : MissionProgress) × (find_progress
        (codes "ana")
        1
        (apply_all (codes "ana") 1 (60 ∷ 70 ∷ 80 ∷ []) (store_of (progress_of active 0))).progresses
      ≡ some q)
    × (q.current_value ≡ 0 + 3)
    × ((q.status ≡ completed) ↔ (3 ≤ 0 + 3))
apply_all-counts_example =
    apply_all-counts (codes "ana") 1 three_bookings (60 ∷ 70 ∷ 80 ∷ [])
      (store_of (progress_of active 0)) (progress_of active 0) refl refl refl refl
      (refl, (λ e. absurd cc, λ l. absurd (omega arith)))

abbrev ready : ClaimStore
ready = record {
  missions = store_of (progress_of completed 3);
  coupons = record { coupons = []; usages = []; clients = []; next_id = 0 };
  loyalty = record { accounts = λ u. none; transactions = []; next_id = 0 };
}

abbrev claimed_store : ClaimStore
claimed_store = elim (claim_mission ready 80 false (codes "X") (codes "ana") 1) [
  | ok t ↦ t
  | err e ↦ ready
]

claims : claim_mission ready 80 false (codes "X") (codes "ana") 1 ≡ ok claimed_store
unfolding claim_mission give_reward mark_claimed add_points prune_mission_events update_progress
claims = refl

claim_mission-once_example :
    claim_mission claimed_store 90 false (codes "Y") (codes "ana") 1 ≡ err not_available
claim_mission-once_example =
    claim_mission-once ready 80 90 false false (codes "X") (codes "Y") (codes "ana") 1 claimed_store
      claims
