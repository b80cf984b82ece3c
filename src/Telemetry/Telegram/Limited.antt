-- ===== src/Telemetry/Telegram/Limited.antt =====
-- How many messages a writer can post in a time.
use api_template.Base.{
  ℕ, zero, suc, ◌+◌, ◌-◌, ◌*◌, ◌≤◌, String, Bool, true, false, Bool-cases, List, [], ◌∷◌, ◌≡◌, refl,
  inl, inr, arith, if◌then◌else◌,
}
use api_template.Kernel.Dicts.{set_item}
use api_template.Telemetry.Bucket.{TokenBucket, Acquired, acquire}
use api_template.Telemetry.Bucket.Rate.{
  Ticks, Bounded, Bounded-refl, Bounded-then, taken_by, Held, Ticks-le, acquire-Held, budget_le,
}
use api_template.Telemetry.Telegram.{Limits, Round, goes_on, chat_bucket, send, Message, deliver}

-- Rounds in which the clock does not go back.
abbrev pub Advancing : (from : ℕ) → List Round → (to : ℕ) → Type 0
Advancing from [] to = from ≤ to
Advancing from (r ∷ rounds) to =
    (middle : ℕ) × Ticks from r.global_readings middle × Advancing middle rounds to

Advancing-le : (from to : ℕ) (rounds : List Round) → Advancing from rounds to → from ≤ to
Advancing-le from to [] h = h
Advancing-le from to (r ∷ rounds) (middle, h, k) =
    omega (arith, Ticks-le from middle r.global_readings h, Advancing-le middle to rounds k)

flag_le : (b : Bool) → (if b then 1 else 0) ≤ 1
flag_le true = omega arith
flag_le false = omega arith

one_at_most : (posts one : ℕ) → posts ≤ 1 → posts * one ≤ one
one_at_most zero one h = omega arith
one_at_most (suc zero) one h = omega arith
one_at_most (suc (suc n)) one h = absurd (omega arith)

module _ (second one per_chat_rate : ℕ) where
  -- Each post has taken its tokens from the bucket of all messages.
  record Paid (b : TokenBucket) (posts to : ℕ) (c : TokenBucket) : Type 0 where
    pub taken : ℕ
    pub bounded : Bounded b taken c
    pub enough : posts * one ≤ taken
    pub over : c.updated ≤ to

  Paid-none : (b : TokenBucket) (to : ℕ) → b.tokens ≤ b.capacity → b.updated ≤ to → Paid b 0 to b
  Paid-none b to room over = record {
    taken = 0;
    bounded = Bounded-refl b room;
    enough = omega arith;
    over = over;
  }

  Paid-Held :
      (b : TokenBucket) (a : Acquired) (to posts : ℕ)
      → Held b one to a
      → a.returns ≡ true
      → posts ≤ 1
      → Paid b posts to a.bucket
  Paid-Held b a to posts held e few = record {
    taken = taken_by one a.returns;
    bounded = held.bounded;
    enough = (rw e (one_at_most posts one few));
    over = held.over;
  }

  Paid-short : (b : TokenBucket) (a : Acquired) (to : ℕ) → Held b one to a → Paid b 0 to a.bucket
  Paid-short b a to held = record {
    taken = taken_by one a.returns;
    bounded = held.bounded;
    enough = omega arith;
    over = held.over;
  }

  Paid-then :
      (b c d : TokenBucket) (m n middle to : ℕ)
      → Paid b m middle c
      → Paid c n to d
      → Paid b (m + n) to d
  Paid-then b c d m n middle to p q = record {
    taken = p.taken + q.taken;
    bounded = Bounded-then b c d p.taken q.taken _ p.bounded q.bounded refl;
    enough = grind (arith, p.enough, q.enough);
    over = q.over;
  }

  Paid-later : (b c : TokenBucket) (m to later : ℕ) → Paid b m to c → to ≤ later → Paid b m later c
  Paid-later b c m to later p le = record {
    taken = p.taken;
    bounded = p.bounded;
    enough = p.enough;
    over = omega (arith, p.over);
  }

  send-Paid :
      (retries : ℕ) (k : String) (rounds : List Round) (limits : Limits) (from to : ℕ)
      → limits.global.tokens ≤ limits.global.capacity
      → limits.global.updated ≤ from
      → Advancing from rounds to
      → let s = send second one per_chat_rate retries k rounds limits in
        Paid limits.global s.posts to s.limits.global
  unfolding send
  send-Paid zero k [] limits from to room start h = Paid-none limits.global to room (omega arith)
  send-Paid (suc retries) k [] limits from to room start h =
      Paid-none limits.global to room (omega arith)
  send-Paid zero k (r ∷ rounds) limits from to room start (middle, h, later) =
      let g = acquire one r.global_readings limits.global in
      let c =
        acquire one r.chat_readings
          (chat_bucket second one per_chat_rate k r.chat_created limits.chats) in
      let held = acquire-Held one r.global_readings limits.global from middle room start h in
      let le = Advancing-le middle to rounds later in
      elim (Bool-cases g.returns) [
        | inr e ↦ rw e (
            Paid-later limits.global g.bucket 0 middle to (Paid-short limits.global g middle held)
              le)
        | inl e ↦ rw e (
            Paid-later limits.global g.bucket _ middle to
              (Paid-Held limits.global g middle (if c.returns then 1 else 0) held e
                (flag_le c.returns))
              le)
      ]
  send-Paid (suc retries) k (r ∷ rounds) limits from to room start (middle, h, later) =
      let g = acquire one r.global_readings limits.global in
      let c =
        acquire one r.chat_readings
          (chat_bucket second one per_chat_rate k r.chat_created limits.chats) in
      let next : Limits = record { global = g.bucket; chats = set_item k c.bucket limits.chats } in
      let held = acquire-Held one r.global_readings limits.global from middle room start h in
      let le = Advancing-le middle to rounds later in
      elim (Bool-cases g.returns) [
        | inr e ↦ rw e (
            Paid-later limits.global g.bucket 0 middle to (Paid-short limits.global g middle held)
              le)
        | inl e ↦ elim (Bool-cases c.returns) [
          | inr f ↦
              rw (e, f)
                (Paid-later limits.global g.bucket 0 middle to
                  (Paid-short limits.global g middle held) le)
          | inl f ↦ elim (Bool-cases (goes_on (suc retries) r.reply)) [
            | inr stop ↦
                rw (e, f, stop)
                  (Paid-later limits.global g.bucket 1 middle to
                    (Paid-Held limits.global g middle 1 held e (omega arith)) le)
            | inl again ↦
                rw (e, f, again)
                  (Paid-then limits.global g.bucket _ 1 _ middle to
                    (Paid-Held limits.global g middle 1 held e (omega arith))
                    (send-Paid retries k rounds next middle to held.bounded.room held.over later))
          ]
        ]
      ]

  -- Messages whose rounds follow one another.
  abbrev pub InTurn : (from : ℕ) → List (Message second one per_chat_rate) → (to : ℕ) → Type 0
  InTurn from [] to = from ≤ to
  InTurn from (m ∷ ms) to = (middle : ℕ) × Advancing from m.rounds middle × InTurn middle ms to

  InTurn-le :
      (from to : ℕ) (ms : List (Message second one per_chat_rate)) → InTurn from ms to → from ≤ to
  InTurn-le from to [] h = h
  InTurn-le from to (m ∷ ms) (middle, h, k) =
      omega (arith, Advancing-le from middle m.rounds h, InTurn-le middle to ms k)

  deliver-Paid :
      (ms : List (Message second one per_chat_rate)) (limits : Limits) (from to : ℕ)
      → limits.global.tokens ≤ limits.global.capacity
      → limits.global.updated ≤ from
      → InTurn from ms to
      → let s = deliver second one per_chat_rate ms limits in
        Paid limits.global s.posts to s.limits.global
  unfolding deliver
  deliver-Paid [] limits from to room start h = Paid-none limits.global to room (omega arith)
  deliver-Paid (m ∷ ms) limits from to room start (middle, h, later) =
      let first = send second one per_chat_rate 2 m.key m.rounds limits in
      let paid = send-Paid 2 m.key m.rounds limits from middle room start h in
      elim (Bool-cases first.returns) [
        | inl e ↦ rw e (
            Paid-then limits.global first.limits.global _ first.posts _ middle to paid
              (deliver-Paid ms first.limits middle to paid.bounded.room paid.over later))
        | inr e ↦ rw e (
            Paid-later limits.global first.limits.global first.posts middle to paid
              (InTurn-le middle to ms later))
      ]

  -- However the messages and the retries come, and wherever they are sent: those that are posted
  -- until a time cost no more tokens than the capacity of the bucket of all messages and what its
  -- rate brings in that time.
  pub deliver-limit :
      (ms : List (Message second one per_chat_rate)) (limits : Limits) (to : ℕ)
      → limits.global.tokens ≤ limits.global.capacity
      → InTurn limits.global.updated ms to
      → (deliver second one per_chat_rate ms limits).posts * one
        ≤ limits.global.capacity + (to - limits.global.updated) * limits.global.rate
  deliver-limit ms limits to room h =
      let s = deliver second one per_chat_rate ms limits in
      let paid = deliver-Paid ms limits limits.global.updated to room (omega arith) h in
      budget_le (s.posts * one) s.limits.global.tokens s.limits.global.updated limits.global.updated
        to limits.global.capacity limits.global.rate
        (omega (arith, paid.bounded.budget, paid.enough, room)) paid.over
