-- ===== src/Missions/Progress/Count.antt =====
-- A mission that counts its events: missions/progress.service.ts.
use limpeja_backend.Common.{
  ℕ, ◌+◌, ◌≤◌, ◌<◌, ◌≡◌, ◌↔◌, refl, true, false, some, List, [], ◌∷◌, arith, inl, inr, Bool-cases,
  leb, if◌then◌else◌,
}
use limpeja_backend.Common.Lists.{find, length}
use limpeja_backend.Common.Text.{Text}
use limpeja_backend.Missions.{
  count_event, completed, Mission, MissionProgress, Store, is_claimed, has_mission_id,
  find_progress,
}
use limpeja_backend.Missions.Progress.{
  apply_kind, prune_mission_events, complete_row, write, check_completion, apply_event_to_mission,
}
use limpeja_backend.Missions.Progress.Laws.{
  find-update_progress, mission-id, apply_kind-KeepsKey, get_or_create-found,
}

-- The events at the given times, applied one after the other.
unfoldable pub apply_all : Text → ℕ → List ℕ → Store → Store
apply_all user id [] s = s
apply_all user id (at ∷ ats) s = apply_all user id ats (apply_event_to_mission s user id at).1

-- The row after one event of a mission that counts.
unfoldable pub counted : Mission → ℕ → MissionProgress → MissionProgress
counted m at p =
    let q = record p { current_value = p.current_value + 1; last_event_at = some at } in
    if leb m.target_value (p.current_value + 1) then complete_row at q else q

-- One event raises the count by one, completes the mission from its target on, and keeps the
-- missions as they are.
kind_row :
    (s : Store) (user : Text) (m : Mission) (at : ℕ) (p : MissionProgress)
    → m.kind ≡ count_event
    → apply_kind s user m at p
      ≡ record p { current_value = p.current_value + 1; last_event_at = some at }
unfolding apply_kind
kind_row s user m at p k = ground arith

apply_event-counted :
    (s : Store) (user : Text) (id at : ℕ) (m : Mission) (p : MissionProgress)
    → find (has_mission_id id) s.missions ≡ some m
    → m.is_active ≡ true
    → m.kind ≡ count_event
    → m.id ≡ id
    → find_progress user id s.progresses ≡ some p
    → is_claimed p.status ≡ false
    → (find_progress user id (apply_event_to_mission s user id at).1.progresses
        ≡ some (counted m at p))
      × ((apply_event_to_mission s user id at).1.missions ≡ s.missions)
unfolding apply_event_to_mission check_completion counted prune_mission_events
apply_event-counted s user id at m p found on kind same here open_ =
    let row : apply_kind s user m at p
        ≡ (record p { current_value = p.current_value + 1; last_event_at = some at }) =
      kind_row s user m at p kind in
    let got = get_or_create-found s user id p here in
    let bumped = record p { current_value = p.current_value + 1; last_event_at = some at } in
    let t = write user id (apply_kind s user m at) s in
    let wrote : find_progress user id t.progresses ≡ some bumped = rw (← row) (
      find-update_progress user id (apply_kind s user m at) s.progresses p
        (apply_kind-KeepsKey s user m at) here) in
    elim (Bool-cases (leb m.target_value (p.current_value + 1))) [
      | inl full ↦
          simp (found, on, got, open_, row, full, same)
            (
              find-update_progress user id (complete_row at) t.progresses bumped (λ r. (refl, refl))
                  wrote,
              refl,
            )
      | inr more ↦ simp (found, on, got, open_, row, more, same) (wrote, refl)
    ]

-- A row that is complete exactly from the target on.
abbrev pub IsCounting : Mission → MissionProgress → Type 0
IsCounting m p =
    (is_claimed p.status ≡ false) × ((p.status ≡ completed) ↔ (m.target_value ≤ p.current_value))

counted-IsCounting :
    (m : Mission) (at : ℕ) (p : MissionProgress)
    → IsCounting m p
    → IsCounting m (counted m at p) × ((counted m at p).current_value ≡ p.current_value + 1)
unfolding counted
counted-IsCounting m at p (open_, (there, back)) =
    elim (Bool-cases (leb m.target_value (p.current_value + 1))) [
      | inl full ↦
          let reached : m.target_value ≤ p.current_value + 1 = ground arith in
          simp full ((refl, (λ e. reached, λ l. refl)), refl)
      | inr more ↦
          let short : p.current_value + 1 < m.target_value = ground arith in
          simp more
            ((open_, (λ e. let l = there e in omega arith, λ l. absurd (omega arith))), refl)
    ]

counts_from :
    (user : Text) (id : ℕ) (m : Mission) (ats : List ℕ) (s : Store) (p : MissionProgress)
    → find (has_mission_id id) s.missions ≡ some m
    → m.is_active ≡ true
    → m.kind ≡ count_event
    → find_progress user id s.progresses ≡ some p
    → IsCounting m p
    → (q : MissionProgress) × (find_progress user id (apply_all user id ats s).progresses ≡ some q)
      × (q.current_value ≡ p.current_value + length ats)
      × IsCounting m q
unfolding apply_all
counts_from user id m [] s p found on kind here ok_ = (p, here, omega arith, ok_)
counts_from user id m (at ∷ ats) s p found on kind here ok_ =
    let (wrote, kept) =
      apply_event-counted s user id at m p found on kind (mission-id id s.missions m found) here
        ok_.0 in
    let (counting, value) = counted-IsCounting m at p ok_ in
    let t = (apply_event_to_mission s user id at).1 in
    let (q, there, sum, last) =
      counts_from user id m ats t (counted m at p) (rw kept found) on kind wrote counting in
    (q, there, omega (arith, sum, value), last)

-- A mission that counts events, from a row that is complete exactly from its target on: after the
-- events the row has counted each of them, and is complete exactly if the target is reached.
pub apply_all-counts :
    (user : Text) (id : ℕ) (m : Mission) (ats : List ℕ) (s : Store) (p : MissionProgress)
    → find (has_mission_id id) s.missions ≡ some m
    → m.is_active ≡ true
    → m.kind ≡ count_event
    → find_progress user id s.progresses ≡ some p
    → IsCounting m p
    → (q : MissionProgress) × (find_progress user id (apply_all user id ats s).progresses ≡ some q)
      × (q.current_value ≡ p.current_value + length ats)
      × ((q.status ≡ completed) ↔ (m.target_value ≤ p.current_value + length ats))
apply_all-counts user id m ats s p found on kind here ok_ =
    let (q, there, sum, (_, full)) = counts_from user id m ats s p found on kind here ok_ in
    (q, there, sum, rw (← sum) full)
