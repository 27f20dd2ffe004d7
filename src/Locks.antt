-- ===== src/Locks.antt =====
-- common/locks/redis-lock.service.ts: locks in Redis that lapse. Redis is a parameter with what its
-- manual says of `GET`, `DEL` and `SET … PX … NX`; the script of `releaseLock` runs as one step.
pub mod Exclusion
mod Tests
use limpeja_backend.Common.{
  ℕ, ◌+◌, ◌≤◌, ◌<◌, ◌≡◌, ◌≢◌, Bool, true, false, ◌==◌, Option, none, some, if◌then◌else◌,
}

pub record Redis : Type 1 where
  pub State : Type 0
  pub get : State → ℕ → ℕ → Option ℕ
  pub set_px_nx : State → ℕ → ℕ → ℕ → ℕ → Bool × State
  pub del : State → ℕ → State
  -- A free key is set, and answers with its value until it lapses.
  pub set-free :
      (s : State) (now key value ttl : ℕ)
      → get s now key ≡ none
      → ((set_px_nx s now key value ttl).0 ≡ true)
        × ((later : ℕ)
            → now ≤ later
            → later < now + ttl
            → get (set_px_nx s now key value ttl).1 later key ≡ some value)
        × ((later : ℕ) → now + ttl ≤ later → get (set_px_nx s now key value ttl).1 later key ≡ none)
  -- A key that is set is left.
  pub set-taken :
      (s : State) (now key value ttl other : ℕ)
      → get s now key ≡ some other
      → set_px_nx s now key value ttl ≡ (false, s)
  pub del-get : (s : State) (now key : ℕ) → get (del s key) now key ≡ none

module _ (redis : Redis) where
  open redis use {State, get, set_px_nx, del}

  -- `acquireLock`
  unfoldable pub acquire_lock : State → ℕ → ℕ → ℕ → ℕ → Bool × State
  acquire_lock s now key value ttl = set_px_nx s now key value ttl

  abbrev pub release_if : State → ℕ → ℕ → Option ℕ → Bool × State
  release_if s key value none = (false, s)
  release_if s key value (some v) = if v == value then (true, del s key) else (false, s)

  -- `releaseLock`
  unfoldable pub release_lock : State → ℕ → ℕ → ℕ → Bool × State
  release_lock s now key value = release_if s key value (get s now key)
