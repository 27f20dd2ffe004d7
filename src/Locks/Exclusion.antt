-- ===== src/Locks/Exclusion.antt =====
-- What the locks of common/locks/redis-lock.service.ts exclude, and until when.
use limpeja_backend.Common.{ℕ, ◌+◌, ◌≤◌, ◌<◌, ◌≡◌, ◌≢◌, refl, true, false, ◌==◌, none, some, arith}
use limpeja_backend.Locks.{Redis, acquire_lock, release_lock}

module _ (redis : Redis) where
  open redis use {State, get, set_px_nx, del, set-free, set-taken, del-get}

  -- Who takes a free lock keeps everyone else out until it lapses: any other attempt fails and
  -- leaves the store, and a release under another value does too.
  pub acquire_lock-excludes :
      (s : State) (now later key mine yours ttl ttl2 : ℕ)
      → get s now key ≡ none
      → now ≤ later
      → later < now + ttl
      → yours ≢ mine
      → let held : State = (acquire_lock redis s now key mine ttl).1 in
        ((acquire_lock redis s now key mine ttl).0 ≡ true)
        × (acquire_lock redis held later key yours ttl2 ≡ (false, held))
        × (release_lock redis held later key yours ≡ (false, held))
  unfolding acquire_lock release_lock
  acquire_lock-excludes s now later key mine yours ttl ttl2 free from until other =
      let (won, answers, _) = set-free s now key mine ttl free in
      let mine_there = answers later from until in
      let differs : (mine == yours) ≡ false = ground arith in
      (won, set-taken _ later key yours ttl2 mine mine_there, simp (mine_there, differs) refl)

  -- The owner's release within that time frees the lock for the next.
  pub release_lock-frees :
      (s : State) (now later key mine ttl : ℕ)
      → get s now key ≡ none
      → now ≤ later
      → later < now + ttl
      → let released =
          release_lock redis (acquire_lock redis s now key mine ttl).1 later key mine in
        (released.0 ≡ true) × ((next : ℕ) → get released.1 next key ≡ none)
  unfolding acquire_lock release_lock
  release_lock-frees s now later key mine ttl free from until =
      let (won, answers, _) = set-free s now key mine ttl free in
      let mine_there = answers later from until in
      let self : (mine == mine) ≡ true = ground arith in
      simp (mine_there, self) (refl, λ next. del-get _ next key)

  -- A lock does not outlast its time: a holder that works longer shares it with the next, who takes
  -- it; the late release of the first then leaves the lock of the second.
  pub lapsed_lock_is_shared :
      (s : State) (now later key mine yours ttl ttl2 : ℕ)
      → get s now key ≡ none
      → now + ttl ≤ later
      → 0 < ttl2
      → yours ≢ mine
      → let taken =
          acquire_lock redis (acquire_lock redis s now key mine ttl).1 later key yours ttl2 in
        (taken.0 ≡ true)
        × (release_lock redis taken.1 later key mine ≡ (false, taken.1))
        × (get taken.1 later key ≡ some yours)
  unfolding acquire_lock release_lock
  lapsed_lock_is_shared s now later key mine yours ttl ttl2 free over some_time other =
      let (_, _, gone) = set-free s now key mine ttl free in
      let (won, answers, _) = set-free _ later key yours ttl2 (gone later over) in
      let there = answers later (omega arith) (omega arith) in
      let differs : (yours == mine) ≡ false = ground arith in
      (won, simp (there, differs) refl, there)
