-- ===== src/Telemetry/Bucket/Rate.antt =====
-- How many tokens a bucket can give in a time.
use api_template.Base.{
  ℕ, ◌+◌, ◌-◌, ◌*◌, ◌≤◌, Bool, true, false, Bool-cases, List, [], ◌∷◌, leb, leb→le, ◌≡◌, refl, inl,
  inr, arith, ap, if◌then◌else◌,
}
use api_template.Telemetry.Bucket.{
  TokenBucket, refill, granted, short, attempt, Acquired, acquire, Call, Served, serve,
}

-- Readings of a clock that does not go back, from one to another.
abbrev pub Ticks : (from : ℕ) → List ℕ → (to : ℕ) → Type 0
Ticks from [] to = from ≤ to
Ticks from (now ∷ readings) to = (from ≤ now) × Ticks now readings to

-- What a step can do: the tokens that are taken, with those that are left, are no more than there
-- were and what the time has brought; and no more than the capacity are left.
pub record Bounded (b : TokenBucket) (taken : ℕ) (c : TokenBucket) : Type 0 where
  pub rate : c.rate ≡ b.rate
  pub capacity : c.capacity ≡ b.capacity
  pub room : c.tokens ≤ c.capacity
  pub on_time : b.updated ≤ c.updated
  pub budget : taken + c.tokens ≤ b.tokens + (c.updated - b.updated) * b.rate

refill-Bounded : (now : ℕ) (b : TokenBucket) → b.updated ≤ now → Bounded b 0 (refill now b)
unfolding refill
refill-Bounded now b h = record {
  rate = refl;
  capacity = refl;
  room = omega arith;
  on_time = h;
  budget = omega arith;
}

split_time : (a b c r : ℕ) → a ≤ b → b ≤ c → (c - a) * r ≡ (b - a) * r + (c - b) * r
split_time a b c r p q = grind arith

pub Bounded-refl : (b : TokenBucket) → b.tokens ≤ b.capacity → Bounded b 0 b
Bounded-refl b h = record {
  rate = refl;
  capacity = refl;
  room = h;
  on_time = omega arith;
  budget = omega arith;
}

pub Bounded-then :
    (b c d : TokenBucket) (m n k : ℕ) → Bounded b m c → Bounded c n d → k ≡ m + n → Bounded b k d
Bounded-then b c d m n k p q sum = record {
  rate = grind (arith, p.rate, q.rate);
  capacity = grind (arith, p.capacity, q.capacity);
  room = q.room;
  on_time = omega (arith, p.on_time, q.on_time);
  budget =
      let spent : n + d.tokens ≤ c.tokens + (d.updated - c.updated) * b.rate =
        rw (← p.rate) q.budget in
      omega (
        arith,
        sum,
        p.budget,
        spent,
        split_time b.updated c.updated d.updated b.rate p.on_time q.on_time,
      );
}

-- Taking tokens that are there.
take-Bounded :
    (b c : TokenBucket) (amount : ℕ)
    → Bounded b 0 c
    → leb amount c.tokens ≡ true
    → Bounded b amount (record c { tokens = c.tokens - amount })
take-Bounded b c amount p h =
    let enough : amount ≤ c.tokens = leb→le amount c.tokens h in
    record {
      rate = p.rate;
      capacity = p.capacity;
      room = omega (arith, p.room);
      on_time = p.on_time;
      budget = omega (arith, p.budget);
    }

abbrev pub taken_by : ℕ → Bool → ℕ
taken_by amount returns = if returns then amount else 0

attempt_granted :
    (amount now : ℕ) (b : TokenBucket)
    → leb amount (refill now b).tokens ≡ true
    → attempt amount now b
      ≡ granted (record (refill now b) { tokens = (refill now b).tokens - amount })
unfolding attempt
attempt_granted amount now b h = rw h refl

attempt_short :
    (amount now : ℕ) (b : TokenBucket)
    → leb amount (refill now b).tokens ≡ false
    → attempt amount now b ≡ short (refill now b) (amount - (refill now b).tokens)
unfolding attempt
attempt_short amount now b h = rw h refl

pub acquire_granted :
    (amount now : ℕ) (readings : List ℕ) (b : TokenBucket)
    → leb amount (refill now b).tokens ≡ true
    → acquire amount (now ∷ readings) b ≡ record {
      returns = true;
      bucket = record (refill now b) { tokens = (refill now b).tokens - amount };
    }
unfolding acquire
acquire_granted amount now readings b h =
    ap
      (λ a. elim a [
        | granted next ↦ record { returns = true; bucket = next }
        | short next deficit ↦ acquire amount readings next
      ])
      (attempt_granted amount now b h)

pub acquire_short :
    (amount now : ℕ) (readings : List ℕ) (b : TokenBucket)
    → leb amount (refill now b).tokens ≡ false
    → acquire amount (now ∷ readings) b ≡ acquire amount readings (refill now b)
unfolding acquire
acquire_short amount now readings b h =
    ap
      (λ a. elim a [
        | granted next ↦ record { returns = true; bucket = next }
        | short next deficit ↦ acquire amount readings next
      ])
      (attempt_short amount now b h)

pub refill-updated : (now : ℕ) (b : TokenBucket) → (refill now b).updated ≡ now
unfolding refill
refill-updated now b = refl

-- A call that begins by now, and is over by then.
pub record Held (b : TokenBucket) (amount to : ℕ) (a : Acquired) : Type 0 where
  pub bounded : Bounded b (taken_by amount a.returns) a.bucket
  pub over : a.bucket.updated ≤ to

pub Ticks-le : (from to : ℕ) (readings : List ℕ) → Ticks from readings to → from ≤ to
Ticks-le from to [] h = h
Ticks-le from to (now ∷ readings) h = omega (arith, h.0, Ticks-le now to readings h.1)

pub acquire-Held :
    (amount : ℕ) (readings : List ℕ) (b : TokenBucket) (from to : ℕ)
    → b.tokens ≤ b.capacity
    → b.updated ≤ from
    → Ticks from readings to
    → Held b amount to (acquire amount readings b)
unfolding acquire attempt
acquire-Held amount [] b from to room start h = record {
  bounded = Bounded-refl b room;
  over = omega arith;
}
acquire-Held amount (now ∷ readings) b from to room start (later, h) =
    let full : TokenBucket = refill now b in
    let came = refill-Bounded now b (omega arith) in
    let at : full.updated ≡ now = refill-updated now b in
    elim (Bool-cases (leb amount full.tokens)) [
      | inl e ↦ rw (acquire_granted amount now readings b e) (record {
        bounded = take-Bounded b full amount came e;
        over = omega (arith, at, Ticks-le now to readings h);
      })
      | inr e ↦
          let rest = acquire-Held amount readings full now to came.room (omega (arith, at)) h in
          rw (acquire_short amount now readings b e) (record {
            bounded =
                Bounded-then b full (acquire amount readings full).bucket 0 _ _ came rest.bounded
                  (omega arith);
            over = rest.over;
          })
    ]

-- Calls whose readings follow one another.
abbrev pub Timely : (from : ℕ) → List Call → (to : ℕ) → Type 0
Timely from [] to = from ≤ to
Timely from (call ∷ calls) to =
    (middle : ℕ) × Ticks from call.readings middle × Timely middle calls to

Timely-le : (from to : ℕ) (calls : List Call) → Timely from calls to → from ≤ to
Timely-le from to [] h = h
Timely-le from to (call ∷ calls) (middle, h, k) =
    omega (arith, Ticks-le from middle call.readings h, Timely-le middle to calls k)

-- What calls can do until then.
record Spent (b : TokenBucket) (to : ℕ) (s : Served) : Type 0 where
  pub bounded : Bounded b s.taken s.bucket
  pub over : s.bucket.updated ≤ to

serve-Spent :
    (calls : List Call) (b : TokenBucket) (from to : ℕ)
    → b.tokens ≤ b.capacity
    → b.updated ≤ from
    → Timely from calls to
    → Spent b to (serve calls b)
unfolding serve
serve-Spent [] b from to room start h = record { bounded = Bounded-refl b room; over = omega arith }
serve-Spent (call ∷ calls) b from to room start (middle, h, k) =
    let held = acquire-Held call.amount call.readings b from middle room start h in
    let first : Acquired = acquire call.amount call.readings b in
    let rest = serve-Spent calls first.bucket middle to held.bounded.room held.over k in
    elim (Bool-cases first.returns) [
      | inl e ↦ rw e (record {
        bounded =
            Bounded-then b first.bucket _ call.amount _ _ (rw e at held.bounded) rest.bounded refl;
        over = rest.over;
      })
      | inr e ↦ rw e (record {
        bounded = rw e at held.bounded;
        over = omega (arith, held.over, Timely-le middle to calls k);
      })
    ]

pub budget_le :
    (taken tokens now first to capacity rate : ℕ)
    → taken + tokens ≤ capacity + (now - first) * rate
    → now ≤ to
    → taken ≤ capacity + (to - first) * rate
budget_le taken tokens now first to capacity rate h le = grind arith

-- However the calls come, in whatever sizes and with however many rounds of waiting, the tokens
-- that a bucket gives until a time are at most its capacity and what its rate brings in that time.
pub serve-le :
    (calls : List Call) (b : TokenBucket) (to : ℕ)
    → b.tokens ≤ b.capacity
    → Timely b.updated calls to
    → (serve calls b).taken ≤ b.capacity + (to - b.updated) * b.rate
serve-le calls b to room h =
    let spent = serve-Spent calls b b.updated to room (omega arith) h in
    budget_le (serve calls b).taken (serve calls b).bucket.tokens (serve calls b).bucket.updated
      b.updated to b.capacity b.rate (omega (arith, spent.bounded.budget, room)) spent.over
