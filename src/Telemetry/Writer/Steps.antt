-- ===== src/Telemetry/Writer/Steps.antt =====
-- Every interleaving of submissions, closings and rounds of the task.
use api_template.Base.{
  ℕ, ◌+◌, ◌-◌, ◌≤◌, ◌≡◌, refl, sym, ap, ◌∙◌, suc, zero, false, some, none, List, [], ◌∷◌, ◌++◌,
  append-nil, append_assoc, length, length-append, All, All-append, arith, if◌then◌else◌,
  Bool-cases, inl, inr, max,
}
use api_template.Telemetry.Writer.{
  Item, event, sentinel, Writer, Taken, new_writer, is_full, submit, close, take_batch, round_of,
  round,
}

module _ {E : Type 0} where
  abbrev pub events : List (Item E) → List E
  events [] = []
  events (event e ∷ q) = e ∷ events q
  events (sentinel ∷ q) = events q

  abbrev pub concat : List (List E) → List E
  concat [] = []
  concat (b ∷ bs) = b ++ concat bs

  -- The events that found room, where `submit` is called on `w`.
  abbrev pub admit : Writer E → E → List E → List E
  admit w e accepted = if is_full w then accepted else accepted ++ e ∷ []

  -- The states that `new_writer` reaches, with the events that were accepted and how many were
  -- submitted.
  pub data Reaches (start : Writer E) : Writer E → List E → ℕ → Type 0 where
    started : Reaches start start [] 0
    submits :
        (w : Writer E) (accepted : List E) (n : ℕ) (e : E)
        → Reaches start w accepted n
        → Reaches start (submit e w) (admit w e accepted) (n + 1)
    closes :
        (w v : Writer E) (accepted : List E) (n : ℕ)
        → Reaches start w accepted n
        → close w ≡ some v
        → Reaches start v accepted n
    rounds :
        (w : Writer E) (accepted : List E) (n : ℕ)
        → Reaches start w accepted n
        → w.stopped ≡ false
        → Reaches start (round w) accepted n

  events-append : (p q : List (Item E)) → events (p ++ q) ≡ events p ++ events q
  events-append [] q = refl
  events-append (event e ∷ p) q = ap (λ r. e ∷ r) (events-append p q)
  events-append (sentinel ∷ p) q = events-append p q

  pub concat-append : (bs : List (List E)) (b : List E) → concat (bs ++ b ∷ []) ≡ concat bs ++ b
  concat-append [] b = append-nil b
  concat-append (c ∷ bs) b =
      ap (λ r. c ++ r) (concat-append bs b) ∙ sym (append_assoc c (concat bs) b)

  take_batch-events :
      (room : ℕ) (q : List (Item E))
      → (take_batch room q).batch ++ events (take_batch room q).rest ≡ events q
  unfolding take_batch
  take_batch-events zero q = refl
  take_batch-events (suc room) [] = refl
  take_batch-events (suc room) (sentinel ∷ q) = refl
  take_batch-events (suc room) (event e ∷ q) = ap (λ r. e ∷ r) (take_batch-events room q)

  take_batch-length : (room : ℕ) (q : List (Item E)) → length (take_batch room q).batch ≤ room
  unfolding take_batch
  take_batch-length zero q = omega arith
  take_batch-length (suc room) [] = omega arith
  take_batch-length (suc room) (sentinel ∷ q) = omega arith
  take_batch-length (suc room) (event e ∷ q) = let h = take_batch-length room q in omega arith

  take_batch-rest : (room : ℕ) (q : List (Item E)) → length (take_batch room q).rest ≤ length q
  unfolding take_batch
  take_batch-rest zero q = omega arith
  take_batch-rest (suc room) [] = omega arith
  take_batch-rest (suc room) (sentinel ∷ q) = omega arith
  take_batch-rest (suc room) (event e ∷ q) = let h = take_batch-rest room q in omega arith

  -- What every reachable state of a writer with these settings keeps.
  pub record Sound (maxsize batch_size : ℕ) (w : Writer E) (accepted : List E) (n : ℕ)
      : Type 0 where
    pub ordered : concat w.handled ++ events w.queue ≡ accepted
    pub counted : w.dropped + length accepted ≡ n
    pub sized : All (λ b. (1 ≤ length b) × (length b ≤ max 1 batch_size)) w.handled
    pub bounded : 1 ≤ maxsize → length w.queue ≤ maxsize
    pub same_size : w.maxsize ≡ maxsize
    pub same_batch : w.batch_size ≡ max 1 batch_size

  room_left :
      (w : Writer E) (x : Item E) (m : ℕ)
      → is_full w ≡ false
      → w.maxsize ≡ m
      → 1 ≤ m
      → length (w.queue ++ x ∷ []) ≤ m
  unfolding is_full
  room_left w x m h e p =
      let q : w.maxsize ≤ length w.queue → ⊥ = λ g. ground arith in
      ground (arith, length-append w.queue (x ∷ []))

module _ {E : Type 0} (m k : ℕ) where
  submit-Sound :
      (w : Writer E) (accepted : List E) (n : ℕ) (e : E)
      → Sound m k w accepted n
      → Sound m k (submit e w) (admit w e accepted) (n + 1)
  unfolding submit
  submit-Sound w accepted n e s = elim (Bool-cases (is_full w)) [
    | inl h ↦ rw h (record {
      ordered = s.ordered;
      counted = omega (arith, s.counted);
      sized = s.sized;
      bounded = s.bounded;
      same_size = s.same_size;
      same_batch = s.same_batch;
    })
    | inr h ↦
        let longer = room_left w (event e) m h s.same_size in
        rw h (record {
          ordered =
              ap (λ r. concat w.handled ++ r) (events-append w.queue (event e ∷ []))
              ∙ sym (append_assoc (concat w.handled) (events w.queue) (e ∷ []))
              ∙ ap (λ r. r ++ e ∷ []) s.ordered;
          counted = omega (arith, s.counted, length-append accepted (e ∷ []));
          sized = s.sized;
          bounded = longer;
          same_size = s.same_size;
          same_batch = s.same_batch;
        })
  ]

  close-Sound :
      (w v : Writer E) (accepted : List E) (n : ℕ)
      → close w ≡ some v
      → Sound m k w accepted n
      → Sound m k v accepted n
  unfolding close
  close-Sound w v accepted n h s = elim (Bool-cases (is_full w)) [
    | inl e ↦ absurd (let g : none ≡ some v = rw e at h in cc)
    | inr e ↦
        let g : some (record w { queue = w.queue ++ sentinel ∷ [] }) ≡ some v = rw e at h in
        let q : record w { queue = w.queue ++ sentinel ∷ [] } ≡ v = cc in
        rw (← q) (record {
          ordered =
              ap (λ r. concat w.handled ++ r)
                (events-append w.queue (sentinel ∷ []) ∙ append-nil (events w.queue))
              ∙ s.ordered;
          counted = s.counted;
          sized = s.sized;
          bounded = room_left w sentinel m e s.same_size;
          same_size = s.same_size;
          same_batch = s.same_batch;
        })
  ]

  round_of-Sound :
      (w : Writer E) (queue : List (Item E)) (accepted : List E) (n : ℕ)
      → w.queue ≡ queue
      → Sound m k w accepted n
      → Sound m k (round_of w queue) accepted n
  unfolding round_of
  round_of-Sound w [] accepted n e s = s
  round_of-Sound w (sentinel ∷ q) accepted n e s = record {
    ordered = ap (λ r. concat w.handled ++ events r) (sym e) ∙ s.ordered;
    counted = s.counted;
    sized = s.sized;
    bounded = λ p. let h = s.bounded p in let l = ap length e in omega arith;
    same_size = s.same_size;
    same_batch = s.same_batch;
  }
  round_of-Sound w (event x ∷ q) accepted n e s =
      let more : Taken E = take_batch (w.batch_size - 1) q in
      let short = take_batch-length (w.batch_size - 1) q in
      record {
        ordered =
            ap (λ r. r ++ events more.rest) (concat-append w.handled (x ∷ more.batch))
            ∙ append_assoc (concat w.handled) (x ∷ more.batch) (events more.rest)
            ∙ ap (λ r. concat w.handled ++ (x ∷ r)) (take_batch-events (w.batch_size - 1) q)
            ∙ ap (λ r. concat w.handled ++ events r) (sym e)
            ∙ s.ordered;
        counted = s.counted;
        sized =
            All-append _ w.handled ((x ∷ more.batch) ∷ []) s.sized
              ((omega arith, omega (arith, s.same_batch)), tt);
        bounded = λ p.
            let h = s.bounded p in
            let l = ap length e in let d = take_batch-rest (w.batch_size - 1) q in omega arith;
        same_size = s.same_size;
        same_batch = s.same_batch;
      }

  -- Whatever the interleaving of submissions, closings and rounds: the batches handled, followed by
  -- what is queued, are the accepted events in their order, none lost and none twice; accepted and
  -- dropped events are all that were submitted; a batch holds at least one event and at most
  -- `batch_size`; and a bounded queue never exceeds its bound.
  pub Reaches-Sound :
      (w : Writer E) (accepted : List E) (n : ℕ)
      → Reaches (new_writer m k) w accepted n
      → Sound m k w accepted n
  unfolding new_writer round
  Reaches-Sound w accepted n started = record {
    ordered = refl;
    counted = refl;
    sized = tt;
    bounded = λ p. omega arith;
    same_size = refl;
    same_batch = refl;
  }
  Reaches-Sound w accepted n (submits v before c e r) =
      submit-Sound v before c e (Reaches-Sound v before c r)
  Reaches-Sound w accepted n (closes v u before c r h) =
      close-Sound v w accepted n h (Reaches-Sound v accepted n r)
  Reaches-Sound w accepted n (rounds v before c r h) =
      round_of-Sound v v.queue accepted n refl (Reaches-Sound v accepted n r)
