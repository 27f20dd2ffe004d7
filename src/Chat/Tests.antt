-- ===== src/Chat/Tests.antt =====
-- Runs of the rate limit.
use limpeja_backend.Common.{ℕ, ◌≤◌, ◌≡◌, refl, none, List, [], ◌∷◌, arith}
use limpeja_backend.Chat.{
  Entries, limit, read_entry, write_entry, consume, finish_consume, next_entry,
}
use limpeja_backend.Chat.Limit.{allowed_calls, allowed_calls-at_most_ten, allowed_calls-unlimited}

abbrev empty : Entries
empty c d = none

abbrev burst : List ℕ
burst = 101 ∷ 102 ∷ 103 ∷ 104 ∷ 105 ∷ 106 ∷ 107 ∷ 108 ∷ 109 ∷ 110 ∷ 111 ∷ 112 ∷ []

no_entry : read_entry empty 100 1 2 ≡ none
unfolding read_entry
no_entry = refl

-- Of thirteen messages in a row ten get through.
ten_of_thirteen : allowed_calls 1000 empty 1 2 (100 ∷ burst) ≡ 10
unfolding allowed_calls consume read_entry finish_consume next_entry write_entry
ten_of_thirteen = refl

allowed_calls-at_most_ten_example : allowed_calls 1000 empty 1 2 (100 ∷ 101 ∷ 102 ∷ []) ≤ limit
allowed_calls-at_most_ten_example =
    allowed_calls-at_most_ten 1000 empty 1 2 100 (101 ∷ 102 ∷ []) (omega arith) no_entry
      (omega arith, (omega arith, tt))

allowed_calls-unlimited_example : allowed_calls 1 empty 1 2 (100 ∷ 160 ∷ 220 ∷ []) ≡ 3
allowed_calls-unlimited_example =
    allowed_calls-unlimited empty 1 2 100 (160 ∷ 220 ∷ []) no_entry (omega arith, (omega arith, tt))
