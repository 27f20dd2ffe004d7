-- ===== src/Missions/Progress/Pruning.antt =====
-- What the pruning of events does to the other readers of the events: missions/progress.service.ts.
use limpeja_backend.Common.{
  ℕ, ◌≤◌, ◌≡◌, refl, true, false, not, ◌&&◌, none, some, List, [], ◌∷◌, ◌++◌, arith, leb,
}
use limpeja_backend.Common.Lists.{find, filter, All}
use limpeja_backend.Common.Outcome.{ok}
use limpeja_backend.Common.Text.{Text, text_eq_refl}
use limpeja_backend.Missions.{
  Mission, MissionProgress, MissionEvent, Store, is_claimed, has_mission_id, has_key, find_progress,
}
use limpeja_backend.Missions.Progress.{
  is_event_of, in_window, count_in_window, prune_mission_events, by_time, replay, fresh_progress,
  get_or_create_progress, recompute_mission_for_user, write, check_completion, complete_row,
}

pruned_window :
    (user : Text) (name at days : ℕ) (es : List MissionEvent)
    → filter
        (λ e. is_event_of user name e && in_window at days e)
        (filter (λ e. not (is_event_of user name e && leb e.created_at at)) es)
      ≡ []
pruned_window user name at days [] = refl
pruned_window user name at days (e ∷ es) = ground (arith, pruned_window user name at days es)

-- Completing a mission empties the windows of the others: when an event completes a mission, a
-- mission of the same event and user that is handled after it counts no event in its window, not
-- even that one.
pub completion_empties_windows :
    (s : Store) (user : Text) (m n : Mission) (at : ℕ) (p : MissionProgress)
    → m.target_value ≤ p.current_value
    → is_claimed p.status ≡ false
    → n.event_name ≡ m.event_name
    → count_in_window (check_completion user m at p s).1 user n at ≡ 0
unfolding count_in_window check_completion prune_mission_events
completion_empties_windows s user m n at p reached open_ same =
    let full : leb m.target_value p.current_value ≡ true = ground arith in
    simp (full, open_, same, pruned_window) refl

pruned_events :
    (user : Text) (name at : ℕ) (es : List MissionEvent)
    → All (λ e. leb e.created_at at ≡ true) es
    → filter
        (is_event_of user name)
        (filter (λ e. not (is_event_of user name e && leb e.created_at at)) es)
      ≡ []
pruned_events user name at [] h = refl
pruned_events user name at (e ∷ es) (l, h) = ground (arith, pruned_events user name at es h)

deleted_row :
    (user : Text) (id : ℕ) (ps : List MissionProgress)
    → find_progress user id (filter (λ p. not (has_key user id p)) ps) ≡ none
deleted_row user id [] = refl
deleted_row user id (p ∷ ps) = ground (arith, deleted_row user id ps)

appended_row :
    (user : Text) (id : ℕ) (ps : List MissionProgress)
    → find_progress user id ps ≡ none
    → find_progress user id (ps ++ fresh_progress user id ∷ []) ≡ some (fresh_progress user id)
appended_row user id [] h = let self = text_eq_refl user in ground arith
appended_row user id (p ∷ ps) h = ground (arith, appended_row user id ps)

-- A mission that an event has just completed, with no later event logged: to recompute it from the
-- events, as is meant for corrections, loses the completion and starts again from nothing.
pub completion_lost_on_recompute :
    (s : Store) (user : Text) (m : Mission) (at : ℕ) (p : MissionProgress)
    → find (has_mission_id m.id) s.missions ≡ some m
    → m.target_value ≤ p.current_value
    → is_claimed p.status ≡ false
    → All (λ e. leb e.created_at at ≡ true) s.events
    → (t : Store) × (recompute_mission_for_user (check_completion user m at p s).1 user m.id
        ≡ ok (some (fresh_progress user m.id), t))
unfolding recompute_mission_for_user check_completion prune_mission_events get_or_create_progress
    by_time replay
completion_lost_on_recompute s user m at p found reached open_ past =
    let full : leb m.target_value p.current_value ≡ true = ground arith in
    let rows = (write user m.id (complete_row at) s).progresses in
    let kept = filter (λ q. not (has_key user m.id q)) rows in
    let gone = deleted_row user m.id rows in
    let left = pruned_events user m.event_name at s.events past in
    let new = appended_row user m.id kept gone in
    (
      record {
        missions = s.missions;
        progresses = kept ++ fresh_progress user m.id ∷ [];
        events =
            filter (λ e. not (is_event_of user m.event_name e && leb e.created_at at)) s.events;
      },
      simp (full, open_, found, gone, left, new) refl,
    )
