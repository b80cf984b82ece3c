-- ===== src/Telemetry/LimitTests.antt =====
-- Buckets and a Telegram writer in concrete seconds of 10 ticks, a token in 10 parts.
use api_template.Base.{ℕ, ◌+◌, ◌-◌, ◌*◌, ◌≤◌, true, false, List, [], ◌∷◌, ◌≡◌, refl, arith}
use api_template.Kernel.Dicts.{get_item}
use api_template.Telemetry.Bucket.{TokenBucket, Slept, acquire, Call, serve}
use api_template.Telemetry.Bucket.Rate.{serve-le}
use api_template.Telemetry.Bucket.Waiting.{acquire-returns}
use api_template.Telemetry.Telegram.{Limits, replied, Message, deliver}
use api_template.Telemetry.Telegram.Limited.{deliver-limit}
use api_template.Telemetry.Telegram.Starved.{deliver-starves}

-- Two tokens in a second, and two at first.
abbrev two_a_second : TokenBucket
two_a_second = record { rate = 2; capacity = 20; tokens = 20; updated = 100 }

-- Three tokens: the third is waited for, for five ticks.
abbrev three_calls : List (Call)
three_calls =
    record { amount = 10; readings = 100 ∷ [] }
    ∷ record { amount = 10; readings = 100 ∷ [] }
    ∷ record { amount = 10; readings = 100 ∷ 105 ∷ [] }
    ∷ []

three_taken : (serve three_calls two_a_second).taken ≡ 30
unfolding serve
three_taken = refl

serve-le_example : (serve three_calls two_a_second).taken ≤ 20 + (105 - 100) * 2
serve-le_example = serve-le three_calls two_a_second 105 (omega arith) (
  100,
  (omega arith, omega arith),
  (100, (omega arith, omega arith), (105, (omega arith, (omega arith, omega arith)), omega arith)),
)

abbrev spent : TokenBucket
spent = record two_a_second { tokens = 0 }

acquire-returns_example : (acquire 10 (101 ∷ 105 ∷ []) spent).returns ≡ true
unfolding Slept
acquire-returns_example =
    acquire-returns 10 101 105 [] spent (omega arith) (omega arith) (omega arith, tt)

abbrev quiet : Limits
quiet = record { global = two_a_second; chats = [] }

abbrev to_chat : List ℕ → ℕ → Message 10 10 1
to_chat readings status = record {
  key = "-100";
  rounds =
      record {
        global_readings = readings;
        chat_created = 100;
        chat_readings = 100 ∷ [];
        reply = replied status;
      }
      ∷ [];
}

deliver-limit_example :
    (deliver 10 10 1 (to_chat (100 ∷ []) 200 ∷ []) quiet).posts * 10 ≤ 20 + (100 - 100) * 2
deliver-limit_example =
    deliver-limit 10 10 1 (to_chat (100 ∷ []) 200 ∷ []) quiet 100 (omega arith)
      (100, (100, (omega arith, omega arith), omega arith), omega arith)

one_posted : (deliver 10 10 1 (to_chat (100 ∷ []) 200 ∷ []) quiet).posts ≡ 1
unfolding deliver
one_posted = refl

-- A token in 20 parts: half a message in a second.
abbrev slowly : Message 10 20 1
slowly = record {
  key = "-100";
  rounds =
      record {
        global_readings = 100 ∷ [];
        chat_created = 100;
        chat_readings = 100 ∷ 150 ∷ 900 ∷ [];
        reply = replied 200;
      }
      ∷ [];
}

deliver-starves_example :
    ((deliver 10 20 1 (slowly ∷ []) quiet).posts ≡ 0)
    × ((deliver 10 20 1 (slowly ∷ []) quiet).returns ≡ false)
unfolding get_item
deliver-starves_example = deliver-starves 10 20 1 slowly [] quiet (omega arith) refl
