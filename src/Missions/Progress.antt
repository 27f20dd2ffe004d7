-- ===== src/Missions/Progress.antt =====
-- missions/progress.service.ts: how an event moves the missions that watch it. Pruning the events
-- fails only with the database, which is left out.
pub mod Laws
pub mod Count
pub mod Pruning
use limpeja_backend.Common.{
  ℕ, zero, suc, ◌+◌, ◌*◌, ◌/◌, Bool, true, false, not, ◌&&◌, ◌||◌, ◌==◌, Option, none, some, List,
  [], ◌∷◌, ◌++◌, ltb, leb, if◌then◌else◌,
}
use limpeja_backend.Common.Lists.{find, filter, length}
use limpeja_backend.Common.Text.{Text, text_eq}
use limpeja_backend.Common.Outcome.{Outcome, ok, err, ◌>>=◌, or_throw}
use limpeja_backend.Missions.{
  MissionKind, count_event, streak_days, within_window, MissionStatus, active, completed, Mission,
  MissionProgress, MissionEvent, Store, is_completed, is_claimed, has_mission_id, has_key,
  find_progress, update_progress,
}

abbrev pub day_ms : ℕ
day_ms = 86400000

abbrev pub fresh_progress : Text → ℕ → MissionProgress
fresh_progress user id = record {
  user_id = user;
  mission_id = id;
  current_value = 0;
  status = active;
  last_event_at = none;
  completed_at = none;
  claimed_at = none;
}

abbrev pub progress_or_new : Store → Text → ℕ → Option MissionProgress → MissionProgress × Store
progress_or_new s user id (some p) = (p, s)
progress_or_new s user id none =
    (fresh_progress user id, record s { progresses = s.progresses ++ fresh_progress user id ∷ [] })

-- `getOrCreateProgress`
unfoldable pub get_or_create_progress : Store → Text → ℕ → MissionProgress × Store
get_or_create_progress s user id = progress_or_new s user id (find_progress user id s.progresses)

-- `isYesterday`
abbrev pub is_yesterday : ℕ → ℕ → Bool
is_yesterday prev now = prev / day_ms + 1 == now / day_ms

abbrev pub streak_after : Option ℕ → ℕ → ℕ → ℕ
streak_after none now value = 1
streak_after (some last) now value = if is_yesterday last now then value + 1 else 1

abbrev pub is_event_of : Text → ℕ → MissionEvent → Bool
is_event_of user name e = text_eq e.user_id user && e.name == name

-- `createdAt: { gte: from, lte: occurredAt }`, with `from` the window's days less one before.
abbrev pub in_window : ℕ → ℕ → MissionEvent → Bool
in_window at days e = leb (at + day_ms) (e.created_at + days * day_ms) && leb e.created_at at

abbrev pub days_or_zero : Option ℕ → ℕ
days_or_zero (some n) = n
days_or_zero none = 0

unfoldable pub count_in_window : Store → Text → Mission → ℕ → ℕ
count_in_window s user m at = length (
    filter
      (λ e. is_event_of user m.event_name e && in_window at (days_or_zero m.time_window_days) e)
      s.events)

-- `applyCountEvent`, `applyWithinWindow` and `applyStreakDays`: what is written into the row.
unfoldable pub apply_kind : Store → Text → Mission → ℕ → MissionProgress → MissionProgress
apply_kind s user m at p = elim m.kind [
  | count_event ↦ (record p { current_value = p.current_value + 1; last_event_at = some at })
  | within_window ↦ (record p {
    current_value = count_in_window s user m at;
    last_event_at = some at;
  })
  | streak_days ↦ (record p {
    current_value = streak_after p.last_event_at at p.current_value;
    last_event_at = some at;
  })
]

-- `pruneMissionEvents`
unfoldable pub prune_mission_events : Text → ℕ → ℕ → Store → Store
prune_mission_events user name before s = record s {
  events = filter (λ e. not (is_event_of user name e && leb e.created_at before)) s.events;
}

abbrev pub or_at : Option ℕ → ℕ → ℕ
or_at (some t) at = t
or_at none at = at

abbrev pub complete_row : ℕ → MissionProgress → MissionProgress
complete_row at p = record p {
  status = completed;
  completed_at = some (or_at p.completed_at at);
  last_event_at = some at;
}

abbrev pub write : Text → ℕ → (MissionProgress → MissionProgress) → Store → Store
write user id change s = record s { progresses = update_progress user id change s.progresses }

-- The test of completion, for the row as it was updated.
unfoldable pub check_completion :
    Text → Mission → ℕ → MissionProgress → Store → MissionProgress × Store
check_completion user m at q t =
    if leb m.target_value q.current_value && not (is_claimed q.status)
    then (
      complete_row at q,
      prune_mission_events user m.event_name at (write user m.id (complete_row at) t),
    )
    else (q, t)

abbrev pub apply_read : Text → Mission → ℕ → MissionProgress × Store → MissionProgress × Store
apply_read user m at (p, s) =
    if is_claimed p.status
    then (p, s)
    else check_completion user m at (apply_kind s user m at p)
        (write user m.id (apply_kind s user m at) s)

abbrev pub apply_found : Store → Text → ℕ → Option Mission → Option MissionProgress × Store
apply_found s user at none = (none, s)
apply_found s user at (some m) =
    if m.is_active
    then (let r = apply_read user m at (get_or_create_progress s user m.id) in (some r.0, r.1))
    else (none, s)

-- `applyEventToMission`
unfoldable pub apply_event_to_mission : Store → Text → ℕ → ℕ → Option MissionProgress × Store
apply_event_to_mission s user id at = apply_found s user at (find (has_mission_id id) s.missions)

-- An element of `updated`, without the percentage.
pub record ProgressUpdate : Type 0 where
  pub mission_id : ℕ
  pub status : MissionStatus
  pub current_value : ℕ
  pub target_value : ℕ
  pub can_claim : Bool

abbrev pub add_update : Mission → Option MissionProgress → List ProgressUpdate → List ProgressUpdate
add_update m none us = us
add_update m (some p) us =
    record {
      mission_id = m.id;
      status = p.status;
      current_value = p.current_value;
      target_value = m.target_value;
      can_claim = is_completed p.status;
    }
    ∷ us

-- The loop over the missions.
unfoldable pub track_each : Text → ℕ → List Mission → Store → List ProgressUpdate × Store
track_each user at [] s = ([], s)
track_each user at (m ∷ ms) s =
    let r = apply_event_to_mission (get_or_create_progress s user m.id).1 user m.id at in
    let rest = track_each user at ms r.1 in (add_update m r.0 rest.0, rest.1)

abbrev pub watches : ℕ → Mission → Bool
watches name m = m.is_active && m.event_name == name

-- `trackEvent`
unfoldable pub track_event : Store → Text → ℕ → ℕ → List ProgressUpdate × Store
track_event s user name at =
    let logged = record s {
      events = s.events ++ record { user_id = user; name = name; created_at = at } ∷ [];
    } in
    track_each user at (filter (watches name) s.missions) logged

abbrev pub insert_event : MissionEvent → List MissionEvent → List MissionEvent
insert_event e [] = e ∷ []
insert_event e (f ∷ fs) =
    let rest = insert_event e fs in if leb e.created_at f.created_at then e ∷ f ∷ fs else f ∷ rest

-- `orderBy: { createdAt: 'asc' }`
unfoldable pub by_time : List MissionEvent → List MissionEvent
by_time [] = []
by_time (e ∷ es) = insert_event e (by_time es)

unfoldable pub replay : Text → ℕ → List MissionEvent → Store → Store
replay user id [] s = s
replay user id (e ∷ es) s = replay user id es (apply_event_to_mission s user id e.created_at).1

pub data MissionError : Type 0 where
  mission_not_found : MissionError

-- `recomputeMissionForUser`: the row is deleted and counted again from the events.
unfoldable pub recompute_mission_for_user :
    Store → Text → ℕ → Outcome MissionError (Option MissionProgress × Store)
recompute_mission_for_user s user id = do
  m ← or_throw (find (has_mission_id id) s.missions) mission_not_found
  let emptied = record s { progresses = filter (λ p. not (has_key user id p)) s.progresses }
  let started = (get_or_create_progress emptied user id).1
  let t = replay user id (by_time (filter (is_event_of user m.event_name) s.events)) started
  ok (find_progress user id t.progresses, t)

abbrev pub is_stale : ℕ → MissionProgress → Bool
is_stale cutoff p =
    (is_completed p.status || is_claimed p.status)
    && elim p.last_event_at [ none ↦ false | some t ↦ ltb t cutoff ]

abbrev pub insert_progress : MissionProgress → List MissionProgress → List MissionProgress
insert_progress p [] = p ∷ []
insert_progress p (q ∷ qs) =
    let rest = insert_progress p qs in
    if leb (or_at p.last_event_at 0) (or_at q.last_event_at 0) then p ∷ q ∷ qs else q ∷ rest

-- `orderBy: { lastEventAt: 'asc' }`
unfoldable pub by_last_event : List MissionProgress → List MissionProgress
by_last_event [] = []
by_last_event (p ∷ ps) = insert_progress p (by_last_event ps)

unfoldable pub take_rows : ℕ → List MissionProgress → List MissionProgress
take_rows zero ps = []
take_rows (suc n) [] = []
take_rows (suc n) (p ∷ ps) = p ∷ take_rows n ps

abbrev pub prune_found : MissionProgress → ℕ → Option Mission → Store → Store
prune_found p cutoff none s = s
prune_found p cutoff (some m) s =
    prune_mission_events p.user_id m.event_name (or_at p.last_event_at cutoff) s

unfoldable pub prune_each : ℕ → List MissionProgress → Store → Store
prune_each cutoff [] s = s
prune_each cutoff (p ∷ ps) s =
    prune_each cutoff ps (prune_found p cutoff (find (has_mission_id p.mission_id) s.missions) s)

-- `cleanupStaleMissionEvents`; `cutoff` is so many hours before now.
unfoldable pub cleanup_stale_mission_events : Store → ℕ → ℕ → Store
cleanup_stale_mission_events s cutoff limit =
    prune_each cutoff (take_rows limit (by_last_event (filter (is_stale cutoff) s.progresses))) s
