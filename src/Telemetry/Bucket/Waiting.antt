-- ===== src/Telemetry/Bucket/Waiting.antt =====
-- When a call of `acquire` returns, and when it never does.
use api_template.Base.{
  ℕ, ◌+◌, ◌-◌, ◌*◌, ◌%◌, ◌≤◌, ◌<◌, true, false, Bool-cases, List, [], ◌∷◌, leb, ◌≡◌, refl, inl, inr,
  arith, ap, ◌∙◌,
}
use native.Mathlib.Nat.{div-add-mod', mod-lt}
use api_template.Telemetry.Bucket.{
  TokenBucket, refill, attempt, short, sleep_ticks, AfterSleep, Slept, Acquired, acquire, Call,
  serve,
}
use api_template.Telemetry.Bucket.Rate.{acquire_granted, acquire_short}

refill-enough :
    (amount now : ℕ) (b : TokenBucket)
    → amount ≤ b.capacity
    → amount ≤ b.tokens + (now - b.updated) * b.rate
    → leb amount (refill now b).tokens ≡ true
unfolding refill
refill-enough amount now b fits come = ground arith

refill-short :
    (amount now : ℕ) (b : TokenBucket)
    → b.capacity < amount
    → leb amount (refill now b).tokens ≡ false
unfolding refill
refill-short amount now b h = ground arith

covered : (a t d : ℕ) → a - t ≤ d → a ≤ t + d
covered a t d h = omega arith

refill_again :
    (amount first second : ℕ) (b : TokenBucket)
    → amount ≤ b.capacity
    → amount - (refill first b).tokens ≤ (second - first) * b.rate
    → leb amount (refill second (refill first b)).tokens ≡ true
unfolding refill
refill_again amount first second b fits slept =
    refill-enough amount second (refill first b) fits
      (covered amount (refill first b).tokens ((second - first) * b.rate) slept)

refill-capacity : (now : ℕ) (b : TokenBucket) → (refill now b).capacity ≡ b.capacity
unfolding refill
refill-capacity now b = refl

pub starves :
    (amount : ℕ) (readings : List ℕ) (b : TokenBucket)
    → b.capacity < amount
    → (acquire amount readings b).returns ≡ false
unfolding acquire
starves amount [] b h = refl
starves amount (now ∷ readings) b h =
    ap (λ (a : Acquired). a.returns)
      (acquire_short amount now readings b (refill-short amount now b h))
    ∙ starves amount readings (refill now b) (omega (arith, refill-capacity now b))

covers_all :
    (deficit rate most rest : ℕ) → most + rest ≡ deficit + rate - 1 → rest < rate → deficit ≤ most
covers_all deficit rate most rest whole small = omega (arith, whole, small)

-- A sleep is long enough for its deficit to come.
sleep_ticks-enough :
    (b : TokenBucket) (deficit : ℕ) → 0 < b.rate → deficit ≤ sleep_ticks b deficit * b.rate
unfolding sleep_ticks
sleep_ticks-enough b deficit h =
    let whole = div-add-mod' (deficit + b.rate - 1) b.rate in
    let rest : (deficit + b.rate - 1) % b.rate < b.rate = mod-lt (deficit + b.rate - 1) h in
    covers_all deficit b.rate _ _ whole rest

longer_more :
    (ticks longer deficit rate : ℕ)
    → deficit ≤ ticks * rate
    → ticks ≤ longer
    → deficit ≤ longer * rate
longer_more ticks longer deficit rate h k = grind arith

sleep_enough :
    (b : TokenBucket) (deficit first second : ℕ)
    → 0 < b.rate
    → first + sleep_ticks (refill first b) deficit ≤ second
    → deficit ≤ (second - first) * b.rate
unfolding refill
sleep_enough b deficit first second h k =
    let come = sleep_ticks-enough (refill first b) deficit h in
    longer_more (sleep_ticks (refill first b) deficit) (second - first) deficit b.rate come
      (omega (arith, k))

-- The first round is short: what it asks for, and that the next one comes after it.
Slept-short :
    (amount first second : ℕ) (readings : List ℕ) (b : TokenBucket)
    → leb amount (refill first b).tokens ≡ false
    → Slept amount first (second ∷ readings) b
    → first + sleep_ticks (refill first b) (amount - (refill first b).tokens) ≤ second
unfolding Slept attempt AfterSleep
Slept-short amount first second readings b e h =
    let g : AfterSleep first second (Slept amount second readings)
        (short (refill first b) (amount - (refill first b).tokens)) =
      rw e at h in
    g.0

-- A call for no more than the capacity, whose readings come after the sleeps that it asks for,
-- returns in its first round or in its second.
pub acquire-returns :
    (amount first second : ℕ) (readings : List ℕ) (b : TokenBucket)
    → amount ≤ b.capacity
    → 0 < b.rate
    → Slept amount first (second ∷ readings) b
    → (acquire amount (first ∷ second ∷ readings) b).returns ≡ true
acquire-returns amount first second readings b fits comes slept =
    elim (Bool-cases (leb amount (refill first b).tokens)) [
      | inl e ↦
          ap (λ (a : Acquired). a.returns) (acquire_granted amount first (second ∷ readings) b e)
      | inr e ↦
          ap (λ (a : Acquired). a.returns)
            (acquire_short amount first (second ∷ readings) b e
              ∙ acquire_granted amount second readings (refill first b) (
                  refill_again amount first second b fits (
                    sleep_enough b _ first second comes
                      (Slept-short amount first second readings b e slept))))
    ]

-- A call for more than the capacity never returns, however often it wakes up, and no call after it
-- begins: the bucket gives nothing any more.
pub serve-starves :
    (call : Call) (calls : List Call) (b : TokenBucket)
    → b.capacity < call.amount
    → ((acquire call.amount call.readings b).returns ≡ false) × ((serve (call ∷ calls) b).taken ≡ 0)
unfolding serve
serve-starves call calls b h =
    let waits = starves call.amount call.readings b h in (waits, rw waits refl)
