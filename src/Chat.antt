-- ===== src/Chat.antt =====
-- chat/chat-rate-limit.service.ts: how many messages a sender may put into a chat. The entries are
-- a map from a chat and a sender to what was set last and the time at which the cache drops it. The
-- code hands the cache a time to live in seconds; what one of them is worth to the cache, in
-- milliseconds, is the argument `unit`: 1000 for a cache that reads seconds, 1 for one that reads
-- milliseconds, as the `cache-manager` of version 6 documents. The map in memory, whose entries go
-- when they expire, answers as a cache of seconds does. A call reads the entry and writes the next
-- one in two awaited steps, which are two functions here; between them the cache may serve another
-- call.
pub mod Limit
mod Tests
use limpeja_backend.Common.{
  ℕ, ◌+◌, ◌-◌, ◌*◌, ◌/◌, Bool, true, false, ◌&&◌, ◌==◌, Option, none, some, ltb, leb, if◌then◌else◌,
}

pub record RateLimitEntry : Type 0 where
  pub count : ℕ
  pub expires_at : ℕ

-- An entry in the cache, which is there before `lapses_at`.
pub record Cell : Type 0 where
  pub entry : RateLimitEntry
  pub lapses_at : ℕ

-- The cells by chat and sender.
abbrev pub Entries : Type 0
Entries = ℕ → ℕ → Option Cell

pub record Verdict : Type 0 where
  pub allowed : Bool
  pub retry_after_ms : ℕ

abbrev pub limit : ℕ
limit = 10

abbrev pub window_ms : ℕ
window_ms = 60000

abbrev pub if_live : ℕ → Option Cell → Option RateLimitEntry
if_live now none = none
if_live now (some c) =
    if ltb now c.lapses_at && ltb now c.entry.expires_at then some c.entry else none

-- `readEntry`
unfoldable pub read_entry : Entries → ℕ → ℕ → ℕ → Option RateLimitEntry
read_entry s now chat sender = if_live now (s chat sender)

-- `ttlSeconds`: the time that is left, rounded up to seconds, and at least one.
abbrev pub ttl_seconds : ℕ → RateLimitEntry → ℕ
ttl_seconds now e = let left = (e.expires_at - now + 999) / 1000 in if ltb left 1 then 1 else left

-- `writeEntry`
unfoldable pub write_entry : ℕ → Entries → ℕ → ℕ → ℕ → RateLimitEntry → Entries
write_entry unit s now chat sender e c d =
    if c == chat && d == sender
    then some (record { entry = e; lapses_at = now + ttl_seconds now e * unit })
    else s c d

-- The entry that a call goes on to write, if it does, and its answer.
unfoldable pub next_entry : ℕ → Option RateLimitEntry → Option RateLimitEntry × Verdict
next_entry now none = (
  some (record { count = 1; expires_at = now + window_ms }),
  record { allowed = leb 1 limit; retry_after_ms = now + window_ms - now },
)
next_entry now (some e) =
    if leb limit e.count
    then (none, record { allowed = false; retry_after_ms = e.expires_at - now })
    else (if ltb now e.expires_at
        then (
          some (record { count = e.count + 1; expires_at = e.expires_at }),
          record { allowed = leb (e.count + 1) limit; retry_after_ms = e.expires_at - now },
        )
        else (
          some (record { count = 1; expires_at = now + window_ms }),
          record { allowed = leb 1 limit; retry_after_ms = now + window_ms - now },
        ))

abbrev pub stored : ℕ → Entries → ℕ → ℕ → ℕ → Option RateLimitEntry → Entries
stored unit s now chat sender none = s
stored unit s now chat sender (some e) = write_entry unit s now chat sender e

-- The second step of a call, after the first has read an entry.
unfoldable pub finish_consume : ℕ → Entries → ℕ → ℕ → ℕ → Option RateLimitEntry → Verdict × Entries
finish_consume unit s now chat sender existing =
    ((next_entry now existing).1, stored unit s now chat sender (next_entry now existing).0)

-- `consume`
unfoldable pub consume : ℕ → Entries → ℕ → ℕ → ℕ → Verdict × Entries
consume unit s now chat sender =
    finish_consume unit s now chat sender (read_entry s now chat sender)
