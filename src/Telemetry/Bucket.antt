-- ===== src/Telemetry/Bucket.antt =====
-- modules/telemetry/writers/rate_limit.py: a token bucket. The loop's clock counts ticks, and tokens
-- are counted in such parts that a whole number of them, the rate, comes with each tick: any
-- fractions have such units. The rounding of floats is not modelled. A call of `acquire` holds the
-- lock until it returns, so the calls are one after another, and each reads the clock in each round.
pub mod Rate
pub mod Waiting
use api_template.Base.{
  ℕ, ◌+◌, ◌-◌, ◌*◌, ◌/◌, ◌≤◌, min, Bool, true, false, Option, none, some, List, [], ◌∷◌, leb,
  if◌then◌else◌,
}

pub record TokenBucket : Type 0 where
  pub rate : ℕ
  pub capacity : ℕ
  pub tokens : ℕ
  pub updated : ℕ

abbrev capacity_or : (rate : ℕ) → Option ℕ → ℕ
capacity_or rate none = rate
capacity_or rate (some capacity) = capacity

-- `__init__`, where so many ticks are a second: by default the capacity is what a second brings.
unfoldable pub new_bucket : (second rate : ℕ) → (capacity : Option ℕ) → (now : ℕ) → TokenBucket
new_bucket second rate capacity now = record {
  rate = rate;
  capacity = capacity_or (second * rate) capacity;
  tokens = capacity_or (second * rate) capacity;
  updated = now;
}

-- What has come since the last round, as far as there is room.
unfoldable pub refill : (now : ℕ) → TokenBucket → TokenBucket
refill now b = record b {
  tokens = min b.capacity (b.tokens + (now - b.updated) * b.rate);
  updated = now;
}

-- A round of the loop: the tokens are taken, or the caller has to wait for the deficit.
pub data Attempt : Type 0 where
  granted : TokenBucket → Attempt
  short : TokenBucket → (deficit : ℕ) → Attempt

unfoldable pub attempt : (amount now : ℕ) → TokenBucket → Attempt
unfolding refill
attempt amount now b =
    let full = refill now b in
    if leb amount full.tokens
    then granted (record full { tokens = full.tokens - amount })
    else short full (amount - full.tokens)

-- `deficit / self.rate`: the first tick at which a sleep of that length is over.
unfoldable pub sleep_ticks : TokenBucket → (deficit : ℕ) → ℕ
sleep_ticks b deficit = (deficit + b.rate - 1) / b.rate

unfoldable pub AfterSleep : (first second : ℕ) → (TokenBucket → Type 0) → Attempt → Type 0
unfolding sleep_ticks
AfterSleep first second later (granted next) = Unit
AfterSleep first second later (short next deficit) =
    (first + sleep_ticks next deficit ≤ second) × later next

-- The readings of the clock in the rounds of a call: each is made when the sleep that the round
-- before asks for is over, or later.
unfoldable pub Slept : (amount : ℕ) → (first : ℕ) → (readings : List ℕ) → TokenBucket → Type 0
unfolding attempt AfterSleep
Slept amount first [] b = Unit
Slept amount first (second ∷ readings) b =
    AfterSleep first second (Slept amount second readings) (attempt amount first b)

-- Whether a call has returned, and what it leaves of the bucket.
pub record Acquired : Type 0 where
  pub returns : Bool
  pub bucket : TokenBucket

-- `acquire` with the readings of the clock, one in each round; without another reading it sleeps.
unfoldable pub acquire : (amount : ℕ) → (readings : List ℕ) → TokenBucket → Acquired
unfolding attempt
acquire amount [] b = record { returns = false; bucket = b }
acquire amount (now ∷ readings) b = elim (attempt amount now b) [
  | granted next ↦ record { returns = true; bucket = next }
  | short next deficit ↦ acquire amount readings next
]

-- A call, with its readings.
pub record Call : Type 0 where
  pub amount : ℕ
  pub readings : List ℕ

-- What the calls have taken in all, and the bucket after them; one that does not return keeps the
-- lock, so that none after it begins.
pub record Served : Type 0 where
  pub taken : ℕ
  pub bucket : TokenBucket

unfoldable pub serve : List Call → TokenBucket → Served
unfolding acquire
serve [] b = record { taken = 0; bucket = b }
serve (call ∷ calls) b =
    let first = acquire call.amount call.readings b in
    let rest = serve calls first.bucket in
    if first.returns
    then record { taken = call.amount + rest.taken; bucket = rest.bucket }
    else record { taken = 0; bucket = first.bucket }
