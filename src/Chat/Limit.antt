-- ===== src/Chat/Limit.antt =====
-- What the rate limit of chat/chat-rate-limit.service.ts holds back.
use limpeja_backend.Common.{
  ℕ, zero, suc, ◌+◌, ◌-◌, ◌*◌, ◌/◌, ◌≤◌, ◌<◌, ◌≡◌, refl, true, false, ◌&&◌, ◌==◌, none, some, List,
  [], ◌∷◌, arith, inl, inr, Bool-cases, ltb, leb, if◌then◌else◌,
}
use limpeja_backend.Common.Lists.{length}
use limpeja_backend.Chat.{
  RateLimitEntry, Entries, limit, ttl_seconds, window_ms, read_entry, write_entry, next_entry,
  finish_consume, consume,
}

-- How many of the calls at the given times are allowed, one after the other.
unfoldable pub allowed_calls : ℕ → Entries → ℕ → ℕ → List ℕ → ℕ
allowed_calls unit s chat sender [] = 0
allowed_calls unit s chat sender (t ∷ ts) =
    let r = consume unit s t chat sender in
    let rest = allowed_calls unit r.1 chat sender ts in if r.0.allowed then suc rest else rest

-- Every time of the list is before a moment.
abbrev pub AllBefore : ℕ → List ℕ → Type 0
AllBefore stop [] = Unit
AllBefore stop (t ∷ ts) = (t < stop) × AllBefore stop ts

seconds-le : (t unit : ℕ) → 1000 ≤ unit → t * 1000 ≤ t * unit
seconds-le zero unit h = omega arith
seconds-le (suc t) unit h = let ih = seconds-le t unit h in grind (arith, ih)

-- A cache of seconds keeps what it is given at least until it expires.
kept_long :
    (unit now : ℕ) (e : RateLimitEntry)
    → 1000 ≤ unit
    → e.expires_at ≤ now + ttl_seconds now e * unit
kept_long unit now e h =
    let long = seconds-le (ttl_seconds now e) unit h in
    let enough : e.expires_at ≤ now + ttl_seconds now e * 1000 = ground arith in
    omega (arith, long, enough)

-- The cell of a sender holds an entry, and is kept until that expires.
abbrev pub Holds : Entries → ℕ → ℕ → RateLimitEntry → Type 0
Holds s chat sender e =
    (lapses : ℕ) × (s chat sender ≡ some (record { entry = e; lapses_at = lapses }))
    × (e.expires_at ≤ lapses)

write-Holds :
    (unit : ℕ) (s : Entries) (now chat sender : ℕ) (e : RateLimitEntry)
    → 1000 ≤ unit
    → Holds (write_entry unit s now chat sender e) chat sender e
unfolding write_entry
write-Holds unit s now chat sender e h =
    let self : (chat == chat && sender == sender) ≡ true = ground arith in
    (now + ttl_seconds now e * unit, simp self refl, kept_long unit now e h)

read-Holds :
    (s : Entries) (now chat sender : ℕ) (e : RateLimitEntry)
    → Holds s chat sender e
    → now < e.expires_at
    → read_entry s now chat sender ≡ some e
unfolding read_entry
read-Holds s now chat sender e (lapses, h, kept) live =
    let first : ltb now lapses ≡ true = ground arith in
    let second : ltb now e.expires_at ≡ true = ground arith in simp (h, first, second) refl

live-consume :
    (unit : ℕ) (s : Entries) (now chat sender : ℕ) (e : RateLimitEntry)
    → 1000 ≤ unit
    → Holds s chat sender e
    → now < e.expires_at
    → (e.count < limit
        → ((consume unit s now chat sender).0.allowed ≡ true)
          × Holds
              (consume unit s now chat sender).1
              chat
              sender
              (record { count = e.count + 1; expires_at = e.expires_at }))
      × (limit ≤ e.count
          → ((consume unit s now chat sender).0.allowed ≡ false)
            × ((consume unit s now chat sender).1 ≡ s))
unfolding consume finish_consume next_entry
live-consume unit s now chat sender e long h live =
    let is_live : ltb now e.expires_at ≡ true = ground arith in
    let read = read-Holds s now chat sender e h live in
    (
      λ below.
          let open_ : leb limit e.count ≡ false = ground arith in
          let next : RateLimitEntry = record { count = e.count + 1; expires_at = e.expires_at } in
          simp (read, is_live, open_) (ground arith, write-Holds unit s now chat sender next long),
      λ full.
          let closed : leb limit e.count ≡ true = ground arith in
          simp (read, is_live, closed) (refl, refl),
    )

-- Within the time of an entry, a sender gets through what the entry has left and no more.
pub allowed_calls-live :
    (unit chat sender : ℕ) (ts : List ℕ) (s : Entries) (e : RateLimitEntry)
    → 1000 ≤ unit
    → Holds s chat sender e
    → e.count ≤ limit
    → AllBefore e.expires_at ts
    → allowed_calls unit s chat sender ts + e.count ≤ limit
unfolding allowed_calls
allowed_calls-live unit chat sender [] s e long h few times = omega arith
allowed_calls-live unit chat sender (t ∷ ts) s e long h few (soon, times) =
    let (below, full) = live-consume unit s t chat sender e long h soon in
    elim (Bool-cases (ltb e.count limit)) [
      | inl more ↦
          let (through, wrote) = below (ground arith) in
          let e2 : RateLimitEntry = record { count = e.count + 1; expires_at = e.expires_at } in
          let ih =
            allowed_calls-live unit chat sender ts (consume unit s t chat sender).1 e2 long wrote
              (ground arith) times in
          simp through (omega (arith, ih))
      | inr spent ↦
          let (held, same) = full (ground arith) in
          let ih = allowed_calls-live unit chat sender ts s e long h few times in
          simp (held, same) (omega (arith, ih))
    ]

-- Where the cache reads the time to live in seconds: of calls one after the other, the first on no
-- live entry, at most ten are allowed among all that come before a minute from the first is over.
pub allowed_calls-at_most_ten :
    (unit : ℕ) (s : Entries) (chat sender now : ℕ) (ts : List ℕ)
    → 1000 ≤ unit
    → read_entry s now chat sender ≡ none
    → AllBefore (now + window_ms) ts
    → allowed_calls unit s chat sender (now ∷ ts) ≤ limit
unfolding allowed_calls consume finish_consume next_entry
allowed_calls-at_most_ten unit s chat sender now ts long fresh times =
    let e : RateLimitEntry = record { count = 1; expires_at = now + window_ms } in
    let rest =
      allowed_calls-live unit chat sender ts (write_entry unit s now chat sender e) e long
        (write-Holds unit s now chat sender e long) (ground arith) times in
    simp fresh (omega (arith, rest))

-- Each time of the list is at least so much after the one before, the first after the given one.
abbrev pub AreSpaced : ℕ → ℕ → List ℕ → Type 0
AreSpaced gap t [] = Unit
AreSpaced gap t (u ∷ us) = (t + gap ≤ u) × AreSpaced gap u us

fresh-consume :
    (s : Entries) (now later chat sender : ℕ)
    → read_entry s now chat sender ≡ none
    → now + 60 ≤ later
    → ((consume 1 s now chat sender).0.allowed ≡ true)
      × (read_entry (consume 1 s now chat sender).1 later chat sender ≡ none)
unfolding consume finish_consume next_entry write_entry read_entry
fresh-consume s now later chat sender fresh gone =
    let self : (chat == chat && sender == sender) ≡ true = ground arith in
    let over : ltb later (now + 60) ≡ false = ground arith in
    let left : (now + window_ms - now + 999) / 1000 ≡ 60 = omega arith in
    simp (fresh, self) (refl, simp (left, over) refl)

-- Where the cache reads the time to live in milliseconds there is no limit for a sender whose
-- calls are sixty milliseconds apart: from no live entry, all of any number of them are allowed.
pub allowed_calls-unlimited :
    (s : Entries) (chat sender now : ℕ) (ts : List ℕ)
    → read_entry s now chat sender ≡ none
    → AreSpaced 60 now ts
    → allowed_calls 1 s chat sender (now ∷ ts) ≡ length (now ∷ ts)
unfolding allowed_calls
allowed_calls-unlimited s chat sender now [] fresh spaced =
    let (through, _) = fresh-consume s now (now + 60) chat sender fresh (omega arith) in
    simp through refl
allowed_calls-unlimited s chat sender now (t ∷ ts) fresh (gap, spaced) =
    let (through, gone) = fresh-consume s now t chat sender fresh gap in
    let ih = allowed_calls-unlimited (consume 1 s now chat sender).1 chat sender t ts gone spaced in
    simp through (ground (arith, ih))

-- Two calls whose reads come before both writes are one to the limit: with nine calls counted both
-- are allowed, and the entry counts ten.
pub race_over_limit :
    (unit : ℕ) (s : Entries) (now chat sender : ℕ) (e : RateLimitEntry)
    → 1000 ≤ unit
    → read_entry s now chat sender ≡ some e
    → e.count ≡ 9
    → now < e.expires_at
    → let first = finish_consume unit s now chat sender (read_entry s now chat sender) in
      let second = finish_consume unit first.1 now chat sender (read_entry s now chat sender) in
      (first.0.allowed ≡ true)
      × (second.0.allowed ≡ true)
      × Holds second.1 chat sender (record { count = 10; expires_at = e.expires_at })
unfolding finish_consume next_entry
race_over_limit unit s now chat sender e long h nine live =
    let is_live : ltb now e.expires_at ≡ true = ground arith in
    let next : RateLimitEntry = record { count = 10; expires_at = e.expires_at } in
    simp (h, nine, is_live) (refl, refl, write-Holds unit _ now chat sender next long)
