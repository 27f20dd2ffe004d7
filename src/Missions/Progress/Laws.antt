-- ===== src/Missions/Progress/Laws.antt =====
-- Reading progress after writes, and what one event does: missions/progress.service.ts.
use limpeja_backend.Common.{
  ℕ, ◌≡◌, refl, ◌∙◌, sym, true, false, not, ◌&&◌, some, List, [], ◌∷◌, ◌++◌, arith, inl, inr,
  Bool-cases, Option-cases, leb,
}
use limpeja_backend.Common.Lists.{find}
use limpeja_backend.Common.Text.{Text, text_eq_sound}
use limpeja_backend.Missions.{
  claimed, Mission, MissionProgress, Store, is_claimed, has_mission_id, has_key, find_progress,
  update_progress,
}
use limpeja_backend.Missions.Progress.{
  get_or_create_progress, apply_kind, prune_mission_events, complete_row, write, check_completion,
  apply_read, apply_found, apply_event_to_mission, track_each, track_event,
}

-- A change of a row that leaves its key.
abbrev pub KeepsKey : (MissionProgress → MissionProgress) → Type 0
KeepsKey change =
    (p : MissionProgress)
    → ((change p).user_id ≡ p.user_id) × ((change p).mission_id ≡ p.mission_id)

has_key-kept :
    (change : MissionProgress → MissionProgress) (user : Text) (id : ℕ) (p : MissionProgress)
    → KeepsKey change
    → has_key user id (change p) ≡ has_key user id p
has_key-kept change user id p k = let (a, b) = k p in rw (a, b) refl

pub find-update_progress :
    (user : Text) (id : ℕ) (change : MissionProgress → MissionProgress) (ps : List MissionProgress)
    (p : MissionProgress)
    → KeepsKey change
    → find_progress user id ps ≡ some p
    → find_progress user id (update_progress user id change ps) ≡ some (change p)
unfolding update_progress
find-update_progress user id change [] p k h = absurd cc
find-update_progress user id change (q ∷ qs) p k h =
    ground (arith, find-update_progress user id change qs p k, has_key-kept change user id q k)

-- A row with another key stays.
pub find-update_progress_other :
    (user v : Text) (id i : ℕ) (change : MissionProgress → MissionProgress)
    (ps : List MissionProgress) (p : MissionProgress)
    → KeepsKey change
    → find_progress v i ps ≡ some p
    → has_key user id p ≡ false
    → find_progress v i (update_progress user id change ps) ≡ some p
unfolding update_progress
find-update_progress_other user v id i change [] p k h n = absurd cc
find-update_progress_other user v id i change (q ∷ qs) p k h n =
    ground
      (arith, find-update_progress_other user v id i change qs p k, has_key-kept change v i q k)

pub find_progress-key :
    (user : Text) (id : ℕ) (ps : List MissionProgress) (p : MissionProgress)
    → find_progress user id ps ≡ some p
    → has_key user id p ≡ true
find_progress-key user id [] p h = absurd cc
find_progress-key user id (q ∷ qs) p h = ground (arith, find_progress-key user id qs p)

find-append :
    (user : Text) (id : ℕ) (ps qs : List MissionProgress) (p : MissionProgress)
    → find_progress user id ps ≡ some p
    → find_progress user id (ps ++ qs) ≡ some p
find-append user id [] qs p h = absurd cc
find-append user id (q ∷ rest) qs p h = ground (arith, find-append user id rest qs p)

-- Two keys of one row are the same.
pub same_key :
    (user v : Text) (id i : ℕ) (p : MissionProgress)
    → has_key user id p ≡ true
    → has_key v i p ≡ true
    → (user ≡ v) × (id ≡ i)
same_key user v id i p h k = (
  sym (text_eq_sound p.user_id user (ground arith)) ∙ text_eq_sound p.user_id v (ground arith),
  ground arith,
)

get_or_create-kept :
    (s : Store) (user v : Text) (id i : ℕ) (p : MissionProgress)
    → find_progress v i s.progresses ≡ some p
    → find_progress v i (get_or_create_progress s user id).1.progresses ≡ some p
unfolding get_or_create_progress
get_or_create-kept s user v id i p h = elim (Option-cases (find_progress user id s.progresses)) [
  | inl e ↦ simp e (find-append v i s.progresses _ p h)
  | inr (q, e) ↦ simp e h
]

pub apply_kind-KeepsKey :
    (s : Store) (user : Text) (m : Mission) (at : ℕ) → KeepsKey (apply_kind s user m at)
unfolding apply_kind
apply_kind-KeepsKey s user m at p = ground arith

pub mission-id :
    (id : ℕ) (ms : List Mission) (m : Mission) → find (has_mission_id id) ms ≡ some m → m.id ≡ id
mission-id id [] m h = absurd cc
mission-id id (n ∷ ns) m h = ground (arith, mission-id id ns m)

check_completion-kept :
    (s : Store) (user v : Text) (m : Mission) (i at : ℕ) (q p : MissionProgress)
    → find_progress v i s.progresses ≡ some p
    → has_key user m.id p ≡ false
    → find_progress v i (check_completion user m at q s).1.progresses ≡ some p
unfolding check_completion prune_mission_events
check_completion-kept s user v m i at q p h n =
    elim (Bool-cases (leb m.target_value q.current_value && not (is_claimed q.status))) [
      | inl e ↦ simp e (
          find-update_progress_other user v m.id i (complete_row at) s.progresses p
            (λ r. (refl, refl)) h n)
      | inr e ↦ simp e h
    ]

apply_read-kept :
    (r : MissionProgress × Store) (user v : Text) (m : Mission) (i at : ℕ) (p : MissionProgress)
    → find_progress v i r.1.progresses ≡ some p
    → has_key user m.id p ≡ false
    → find_progress v i (apply_read user m at r).1.progresses ≡ some p
apply_read-kept (q, s) user v m i at p h n = elim (Bool-cases (is_claimed q.status)) [
  | inl e ↦ simp e h
  | inr e ↦ simp e (
      check_completion-kept (write user m.id (apply_kind s user m at) s) user v m i at
        (apply_kind s user m at q) p
        (find-update_progress_other user v m.id i (apply_kind s user m at) s.progresses p
          (apply_kind-KeepsKey s user m at) h n)
        n)
]

pub get_or_create-found :
    (s : Store) (user : Text) (id : ℕ) (p : MissionProgress)
    → find_progress user id s.progresses ≡ some p
    → get_or_create_progress s user id ≡ (p, s)
unfolding get_or_create_progress
get_or_create-found s user id p h = simp h refl

apply_found-claimed :
    (s : Store) (user v : Text) (i at : ℕ) (m : Mission) (p : MissionProgress)
    → find_progress v i s.progresses ≡ some p
    → p.status ≡ claimed
    → find_progress v i (apply_found s user at (some m)).1.progresses ≡ some p
apply_found-claimed s user v i at m p h c = elim (Bool-cases m.is_active) [
  | inr off ↦ simp off h
  | inl on ↦ elim (Bool-cases (has_key user m.id p)) [
    | inl own ↦
        let (eu, ei) = same_key user v m.id i p own (find_progress-key v i s.progresses p h) in
        let here : find_progress user m.id s.progresses ≡ some p = rw (eu, ei) h in
        simp (on, get_or_create-found s user m.id p here, c) h
    | inr other ↦ simp on (
        apply_read-kept (get_or_create_progress s user m.id) user v m i at p
          (get_or_create-kept s user v m.id i p h) other)
  ]
]

apply_event-claimed :
    (s : Store) (user v : Text) (id i at : ℕ) (p : MissionProgress)
    → find_progress v i s.progresses ≡ some p
    → p.status ≡ claimed
    → find_progress v i (apply_event_to_mission s user id at).1.progresses ≡ some p
unfolding apply_event_to_mission
apply_event-claimed s user v id i at p h c =
    elim (Option-cases (find (has_mission_id id) s.missions)) [
      | inl e ↦ simp e h
      | inr (m, e) ↦ simp e (apply_found-claimed s user v i at m p h c)
    ]

track_each-claimed :
    (user v : Text) (i at : ℕ) (ms : List Mission) (s : Store) (p : MissionProgress)
    → find_progress v i s.progresses ≡ some p
    → p.status ≡ claimed
    → find_progress v i (track_each user at ms s).1.progresses ≡ some p
unfolding track_each
track_each-claimed user v i at [] s p h c = h
track_each-claimed user v i at (m ∷ ms) s p h c =
    track_each-claimed user v i at ms _ p
      (apply_event-claimed (get_or_create_progress s user m.id).1 user v m.id i at p
        (get_or_create-kept s user v m.id i p h) c)
      c

-- A progress whose reward was claimed is final: no event, of any user, name or time, changes it.
pub track_event-claimed :
    (s : Store) (user v : Text) (name i at : ℕ) (p : MissionProgress)
    → find_progress v i s.progresses ≡ some p
    → p.status ≡ claimed
    → find_progress v i (track_event s user name at).1.progresses ≡ some p
unfolding track_event
track_event-claimed s user v name i at p h c = track_each-claimed user v i at _ _ p h c
