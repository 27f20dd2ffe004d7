-- ===== src/Locks/Tests.antt =====
-- Locks over a concrete store, as Redis documents it.
mod Creation
use limpeja_backend.Common.{
  ℕ, ◌+◌, ◌≡◌, refl, Bool, true, false, ◌==◌, Option, none, some, arith, ltb, if◌then◌else◌,
}
use limpeja_backend.Common.Outcome.{Outcome, ok, err}
use limpeja_backend.Locks.{Redis, acquire_lock, release_lock}
use limpeja_backend.Locks.Exclusion.{acquire_lock-excludes}
use limpeja_backend.Bookings.Weekly.{
  WeeklyError, lock_busy, weekly_lock_ttl_ms, run_with_weekly_lock,
}
use limpeja_backend.Bookings.Weekly.Laws.{run_with_weekly_lock_lem}

pub record Cell : Type 0 where
  pub content : ℕ
  pub until : ℕ

abbrev pub live : ℕ → Option Cell → Option ℕ
live now none = none
live now (some c) = if ltb now c.until then some c.content else none

abbrev pub set_if : (ℕ → Option Cell) → ℕ → Cell → Option ℕ → Bool × (ℕ → Option Cell)
set_if s key cell none = (true, λ k. if k == key then some cell else s k)
set_if s key cell (some v) = (false, s)

abbrev pub cells : Redis
cells = record {
  State = ℕ → Option Cell;
  get = λ s now key. live now (s key);
  set_px_nx = λ s now key value ttl.
      set_if s key (record { content = value; until = now + ttl }) (live now (s key));
  del = λ s key k. if k == key then none else s k;
  set-free = λ s now key value ttl free.
      let self : (key == key) ≡ true = ground arith in
      (
        rw free refl,
        λ later from until. simp (free, self) (ground arith),
        λ later over. simp (free, self) (ground arith),
      );
  set-taken = λ s now key value ttl other taken. rw taken refl;
  del-get = λ s now key. let self : (key == key) ≡ true = ground arith in simp self refl;
}

abbrev pub nothing : ℕ → Option Cell
nothing key = none
