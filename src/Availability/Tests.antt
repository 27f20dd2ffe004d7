-- ===== src/Availability/Tests.antt =====
-- Runs of the slots of a provider.
use limpeja_backend.Common.{ℕ, ◌≡◌, refl, true, false, Option, none, some, [], ◌∷◌, Bool}
use limpeja_backend.Common.Lists.{any}
use limpeja_backend.Common.Outcome.{ok, err}
use limpeja_backend.Availability.{
  Slot, UpdateAvailabilityDto, Time, overlaps, update_slot, write_slot, update_one, update_all,
  update_availability, create_availability, day_range, build_day_range, slot_conflict,
}
use limpeja_backend.Availability.Laws.{
  clashes, HasNoOverlap, update_availability-HasNoOverlap, overlap_sticks,
}

abbrev hour : ℕ → Time
hour h = record { hours = h; minutes = 0 }

-- Provider 3, on a Monday.
abbrev slot : ℕ → ℕ → ℕ → Slot
slot id from to = record {
  id = id;
  provider_id = 3;
  day_of_week = 1;
  start_time = hour from;
  end_time = hour to;
  is_available = true;
}

abbrev request : Option ℕ → ℕ → ℕ → Option Bool → UpdateAvailabilityDto
request id from to keep = record {
  id = id;
  day_of_week = 1;
  start_time = hour from;
  end_time = hour to;
  is_available = keep;
  new_id = 9;
}

-- A moment of a Thursday.
abbrev now : ℕ
now = 20000000

added :
    update_availability now
      (3 ∷ [])
      []
      3
      (request none 10 12 none ∷ request (some 1) 8 9 none ∷ request (some 1) 9 11 none ∷ [])
      (slot 1 8 10 ∷ [])
    ≡ (slot 1 8 9 ∷ slot 9 10 12 ∷ [], err slot_conflict)
unfolding update_availability update_all update_one write_slot update_slot overlaps day_range
    build_day_range
added = refl

update_availability-HasNoOverlap_example :
    HasNoOverlap
      (update_availability now
        (3 ∷ [])
        []
        3
        (request none 10 12 none ∷ request (some 1) 8 9 none ∷ request (some 1) 9 11 none ∷ [])
        (slot 1 8 10 ∷ [])).0
update_availability-HasNoOverlap_example =
    update_availability-HasNoOverlap now (3 ∷ []) [] 3
      (request none 10 12 none ∷ request (some 1) 8 9 none ∷ request (some 1) 9 11 none ∷ [])
      (slot 1 8 10 ∷ []) (refl, tt)

created_over :
    create_availability now (3 ∷ []) [] 3 (request none 9 11 none) (slot 1 8 10 ∷ [])
    ≡ ok (slot 1 8 10 ∷ slot 9 9 11 ∷ [])
unfolding create_availability day_range build_day_range
created_over = refl

share : any (clashes (slot 9 9 11)) (slot 1 8 10 ∷ slot 9 9 11 ∷ []) ≡ true
unfolding clashes
share = refl

overlap_sticks_example :
    (update_availability now
      (3 ∷ [])
      []
      3
      (request (some 9) 9 11 (some false) ∷ [])
      (slot 1 8 10 ∷ slot 9 9 11 ∷ [])).0
    ≡ slot 1 8 10 ∷ slot 9 9 11 ∷ []
overlap_sticks_example =
    overlap_sticks now (3 ∷ []) [] (slot 1 8 10 ∷ slot 9 9 11 ∷ []) (slot 9 9 11)
      (request (some 9) 9 11 (some false)) refl refl refl refl share
