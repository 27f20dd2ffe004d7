-- ===== src/Missions.antt =====
-- missions/: what users can reach and what they are given for it. Users are texts, missions, and
-- the names of events are numbers, since they are only compared; a target and a window are not
-- negative. Times are milliseconds, the server's days are those of UTC and have 24 hours. The
-- percentage that a view shows is computed in floating point and is left out.
pub mod Progress
pub mod Claim
mod Tests
use limpeja_backend.Common.{ℕ, Bool, true, false, ◌&&◌, ◌==◌, Option, List, [], ◌∷◌, if◌then◌else◌}
use limpeja_backend.Common.Lists.{find}
use limpeja_backend.Common.Text.{Text, text_eq}

pub data MissionKind : Type 0 where
  count_event streak_days within_window : MissionKind

pub data RewardType : Type 0 where
  coupon points : RewardType

pub data MissionStatus : Type 0 where
  active completed claimed : MissionStatus

pub record Mission : Type 0 where
  pub id : ℕ
  pub code : Text
  pub kind : MissionKind
  pub event_name : ℕ
  pub target_value : ℕ
  pub time_window_days : Option ℕ
  pub reward_type : RewardType
  pub reward_value : ℕ
  pub is_active : Bool

pub record MissionProgress : Type 0 where
  pub user_id : Text
  pub mission_id : ℕ
  pub current_value : ℕ
  pub status : MissionStatus
  pub last_event_at : Option ℕ
  pub completed_at : Option ℕ
  pub claimed_at : Option ℕ

pub record MissionEvent : Type 0 where
  pub user_id : Text
  pub name : ℕ
  pub created_at : ℕ

pub record Store : Type 0 where
  pub missions : List Mission
  pub progresses : List MissionProgress
  pub events : List MissionEvent

abbrev pub is_completed : MissionStatus → Bool
is_completed completed = true
is_completed _ = false

abbrev pub is_claimed : MissionStatus → Bool
is_claimed claimed = true
is_claimed _ = false

abbrev pub has_mission_id : ℕ → Mission → Bool
has_mission_id id m = m.id == id

-- The key `userId_missionId`.
abbrev pub has_key : Text → ℕ → MissionProgress → Bool
has_key user id p = text_eq p.user_id user && p.mission_id == id

abbrev pub find_progress : Text → ℕ → List MissionProgress → Option MissionProgress
find_progress user id ps = find (has_key user id) ps

-- `missionProgress.update` by that key.
unfoldable pub update_progress :
    Text → ℕ → (MissionProgress → MissionProgress) → List MissionProgress → List MissionProgress
update_progress user id change [] = []
update_progress user id change (p ∷ ps) =
    let rest = update_progress user id change ps in
    if has_key user id p then change p ∷ ps else p ∷ rest
