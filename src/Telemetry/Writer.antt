-- ===== src/Telemetry/Writer.antt =====
-- modules/telemetry/writers/base.py: a bounded queue that drops what does not fit, and the task
-- that takes batches out of it. The task and its callers share one event loop: between two steps of
-- the task, at its waits, any number of events may be submitted.
pub mod Steps
pub mod Drain
use api_template.Base.{
  ℕ, ◌+◌, ◌-◌, suc, zero, Bool, true, false, Option, none, some, List, [], ◌∷◌, ◌++◌, length, ltb,
  leb, ◌&&◌, max, if◌then◌else◌,
}

-- What stands in the queue: an event, or the sentinel of `aclose`.
pub data Item (E : Type 0) : Type 0 where
  event : E → Item E
  sentinel : Item E

pub record Writer (E : Type 0) : Type 0 where
  pub queue : List (Item E)
  pub maxsize : ℕ
  pub batch_size : ℕ
  pub dropped : ℕ
  -- the batches that the task has handed to `_handle_batch`, in order
  pub handled : List (List E)
  pub stopped : Bool

-- What the inner loop of `_run` takes off the queue; whether it has met the sentinel; and what it
-- leaves.
pub record Taken (E : Type 0) : Type 0 where
  pub batch : List E
  pub stopping : Bool
  pub rest : List (Item E)

module _ {E : Type 0} where
  -- `__init__`; a queue whose `maxsize` is 0 has no bound.
  unfoldable pub new_writer : (maxsize batch_size : ℕ) → Writer E
  new_writer maxsize batch_size = record {
    queue = [];
    maxsize = maxsize;
    batch_size = max 1 batch_size;
    dropped = 0;
    handled = [];
    stopped = false;
  }

  -- Whether `put_nowait` would raise QueueFull.
  unfoldable pub is_full : Writer E → Bool
  is_full w = ltb 0 w.maxsize && leb w.maxsize (length w.queue)

  unfoldable pub submit : E → Writer E → Writer E
  unfolding is_full
  submit e w =
      if is_full w
      then record w { dropped = w.dropped + 1 }
      else record w { queue = w.queue ++ event e ∷ [] }

  -- `aclose` waits for room, and then puts the sentinel.
  unfoldable pub close : Writer E → Option (Writer E)
  unfolding is_full
  close w = if is_full w then none else some (record w { queue = w.queue ++ sentinel ∷ [] })

  -- The inner loop, with room for so many events.
  unfoldable pub take_batch : ℕ → List (Item E) → Taken E
  take_batch zero queue = record { batch = []; stopping = false; rest = queue }
  take_batch (suc room) [] = record { batch = []; stopping = false; rest = [] }
  take_batch (suc room) (sentinel ∷ queue) = record { batch = []; stopping = true; rest = queue }
  take_batch (suc room) (event e ∷ queue) =
      let more : Taken E = take_batch room queue in record more { batch = e ∷ more.batch }

  -- One round of the outer loop of `_run`, by what stands in the queue: a wait that times out, the
  -- sentinel first, or a batch that `_handle_batch` is given, whether it then raises or not.
  unfoldable pub round_of : Writer E → List (Item E) → Writer E
  unfolding take_batch
  round_of w [] = w
  round_of w (sentinel ∷ queue) = record w { queue = queue; stopped = true }
  round_of w (event e ∷ queue) =
      let more : Taken E = take_batch (w.batch_size - 1) queue in
      record w {
        queue = more.rest;
        handled = w.handled ++ (e ∷ more.batch) ∷ [];
        stopped = more.stopping;
      }

  unfoldable pub round : Writer E → Writer E
  unfolding round_of
  round w = round_of w w.queue

  -- The outer loop of `_run`, for at most so many rounds, while nothing else touches the queue.
  unfoldable pub run : ℕ → Writer E → Writer E
  unfolding round
  run zero w = w
  run (suc n) w = let w' = run n (round w) in if w.stopped then w else w'
