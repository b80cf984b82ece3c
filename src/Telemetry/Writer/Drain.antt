-- ===== src/Telemetry/Writer/Drain.antt =====
-- After `aclose` has put the sentinel, the task handles everything that was queued, and ends.
use api_template.Base.{
  ℕ, ◌-◌, ◌≤◌, ◌<◌, ◌≡◌, refl, sym, ap, ◌∙◌, suc, zero, true, false, List, [], ◌∷◌, ◌++◌,
  append-nil, append_assoc, length, arith, if◌then◌else◌,
}
use api_template.Telemetry.Writer.{
  Item, event, sentinel, Writer, Taken, take_batch, round_of, round, run,
}
use api_template.Telemetry.Writer.Steps.{concat, concat-append}

module _ {E : Type 0} where
  -- A queue of these events with the sentinel after them.
  abbrev pub closing : List E → List (Item E)
  closing [] = sentinel ∷ []
  closing (e ∷ es) = event e ∷ closing es

  -- How a batch is taken off such a queue: with the sentinel, or before it.
  data Cut (es : List E) (t : Taken E) : Type 0 where
    whole : t.stopping ≡ true → t.batch ≡ es → Cut es t
    part :
        (left : List E)
        → t.stopping ≡ false
        → t.rest ≡ closing left
        → t.batch ++ left ≡ es
        → length left ≤ length es
        → Cut es t

  take_batch-Cut : (room : ℕ) (es : List E) → Cut es (take_batch room (closing es))
  unfolding take_batch
  take_batch-Cut zero es = part es refl refl refl (omega arith)
  take_batch-Cut (suc room) [] = whole refl refl
  take_batch-Cut (suc room) (e ∷ es) = elim (take_batch-Cut room es) [
    | whole s b ↦ whole s (ap (λ r. e ∷ r) b)
    | part left s r b l ↦ part left s r (ap (λ q. e ∷ q) b) (omega arith)
  ]

  run_stopped : (n : ℕ) (w : Writer E) → w.stopped ≡ true → run n w ≡ w
  unfolding run
  run_stopped zero w h = refl
  run_stopped (suc n) w h = rw h refl

  run_step :
      (n : ℕ) (w : Writer E) (queue : List (Item E))
      → w.queue ≡ queue
      → w.stopped ≡ false
      → run (suc n) w ≡ run n (round_of w queue)
  unfolding run round
  run_step n w queue e h =
      ap (λ b. if b then w else run n (round w)) h ∙ ap (λ q. run n (round_of w q)) e

  -- A task whose queue ends with the sentinel handles all events before it in their order, and
  -- ends, within one round more than there are events.
  pub run_drains :
      (n : ℕ) (w : Writer E) (es : List E)
      → w.queue ≡ closing es
      → w.stopped ≡ false
      → length es < n
      → ((run n w).stopped ≡ true) × (concat (run n w).handled ≡ concat w.handled ++ es)
  unfolding round_of
  run_drains zero w es e h l = absurd (omega arith)
  run_drains (suc n) w [] e h l =
      rw
        (
          run_step n w (sentinel ∷ []) e h,
          run_stopped n (record w { queue = []; stopped = true }) refl,
        )
        (refl, sym (append-nil (concat w.handled)))
  run_drains (suc n) w (x ∷ es) e h l =
      let t : Taken E = take_batch (w.batch_size - 1) (closing es) in
      let w' : Writer E = record w {
        queue = t.rest;
        handled = w.handled ++ (x ∷ t.batch) ∷ [];
        stopped = t.stopping;
      } in
      let step : run (suc n) w ≡ run n w' = run_step n w (event x ∷ closing es) e h in
      let grown = concat-append w.handled (x ∷ t.batch) in
      elim (take_batch-Cut (w.batch_size - 1) es) [
        | whole s b ↦
            rw (step, run_stopped n w' s) (s, grown ∙ ap (λ r. concat w.handled ++ x ∷ r) b)
        | part left s r b short ↦
            let (ends, all) = run_drains n w' left r s (omega arith) in
            (
              rw step ends,
              rw step (
                  all
                  ∙ ap (λ q. q ++ left) grown
                  ∙ append_assoc (concat w.handled) (x ∷ t.batch) left
                  ∙ ap (λ q. concat w.handled ++ x ∷ q) b),
            )
      ]
