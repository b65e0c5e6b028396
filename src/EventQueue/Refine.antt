-- ===== src/EventQueue/Refine.antt =====
-- The ring of `basekernel/kernel/event_queue.c` against a queue of at most 31 events.
use stage_os.Base.{
  ℕ, zero, suc, ◌+◌, ◌-◌, ◌/◌, ◌%◌, ◌^◌, ◌≤◌, ◌<◌, ◌≡◌, ◌≢◌, refl, ap, sym, Bool, true, false, ◌&&◌,
  List, [], ◌∷◌, ◌++◌, arith, ◌==◌, ltb, if◌then◌else◌, length, get_or, take, drop, length-set, inl,
  inr, Bool-cases, ==_iff, ge→ltb, lt→ltb, ◌⊎◌,
}
use stage_os.Ring.{
  span, next, mod-next, span-next_to, span_full, span_not_full, span-next_from, span_self, window,
  length-window, window-snoc,
}
use stage_os.EventQueue.{
  Event, blank, size, event_bytes, EventQueue, create, post, Outcome, invalid_request, waits,
  returns, and_event, read_loop, read_raw, read,
}

pub record IsValid (q : EventQueue) : Type 0 where
  pub cells : length q.buffer ≡ size
  pub head_in : q.head < size
  pub tail_in : q.tail < size

-- The events that are posted and not read, oldest first.
abbrev pub contents : EventQueue → List Event
contents q = window q.buffer blank size q.tail (span size q.tail q.head)

pub create-IsValid : IsValid create × (contents create ≡ [])
unfolding create span window
create-IsValid = (record { cells = refl; head_in = omega arith; tail_in = omega arith }, refl)

module _ (q : EventQueue) (v : IsValid q) where
  next_head : (q.head + 1) % size ≡ next size q.head
  next_head = mod-next size q.head v.head_in

  next_tail : (q.tail + 1) % size ≡ next size q.tail
  next_tail = mod-next size q.tail v.tail_in

  length-contents : length (contents q) ≡ span size q.tail q.head
  length-contents = length-window q.buffer blank size q.tail (span size q.tail q.head)

  pub post-IsValid : (e : Event) → IsValid (post e q).0
  unfolding post
  post-IsValid e = ground (arith, length-set q.buffer q.head e)

  -- `event_queue_post` appends the event if fewer than 31 are held, and otherwise drops it and counts
  -- the loss.
  pub post_lem :
      (e : Event)
      → (contents (post e q).0
          ≡ (if ltb (length (contents q)) 31 then contents q ++ (e ∷ []) else contents q))
        × ((post e q).0.overflow_count ≡ (
            if ltb (length (contents q)) 31
            then q.overflow_count
            else (q.overflow_count + 1) % 2 ^ 32))
  unfolding post
  post_lem e = elim (Bool-cases (next size q.head == q.tail)) [
    | inl full ↦
        let last =
          span_full size q.tail q.head v.tail_in v.head_in
            ((==_iff (next size q.head) q.tail).0 full) in
        rw (next_head, full, ge→ltb (length (contents q)) 31 (omega (arith, length-contents, last)))
          (refl, refl)
    | inr room ↦
        let free : next size q.head ≢ q.tail =
          λ h. cc ((==_iff (next size q.head) q.tail).1 h, room) in
        let more : span size q.tail (next size q.head) ≡ suc (span size q.tail q.head) =
          omega (arith, span-next_to size q.tail q.head v.tail_in v.head_in free) in
        rw
          (
            next_head,
            room,
            lt→ltb (length (contents q)) 31 (
                omega (
                  arith,
                  length-contents,
                  span_not_full size q.tail q.head v.tail_in v.head_in free,
                )),
            more,
          )
          (
            window-snoc q.buffer blank e size (span size q.tail q.head) q.tail q.head
                (omega (arith, v.cells)) v.tail_in v.head_in refl,
            refl,
          )
  ]

-- An outcome that took the first `n` events off the queue, or all if there are fewer.
pub record Drained (q : EventQueue) (n : ℕ) (r : Outcome × EventQueue) : Type 0 where
  pub events : r.0 ≡ returns (take n (contents q))
  pub left : contents r.1 ≡ drop n (contents q)
  pub valid : IsValid r.1
  pub same_waiting : r.1.process_queue ≡ q.process_queue
  pub same_overflow : r.1.overflow_count ≡ q.overflow_count

advanced : EventQueue → EventQueue
advanced q = record q { tail = (q.tail + 1) % size }

module _ (q : EventQueue) (v : IsValid q) where
  contents_empty : (q.head == q.tail) ≡ true → contents q ≡ []
  unfolding window
  contents_empty e = rw ((==_iff q.head q.tail).0 e, span_self size q.tail)

  contents_cons :
      (q.head == q.tail) ≡ false → contents q ≡ get_or q.buffer q.tail blank ∷ contents (advanced q)
  unfolding window advanced
  contents_cons e =
      let ne : q.tail ≢ q.head = λ h. cc ((==_iff q.head q.tail).1 (sym h), e) in
      let one : span size q.tail q.head ≡ suc (span size (next size q.tail) q.head) =
        omega (arith, span-next_from size q.tail q.head v.tail_in v.head_in ne) in
      rw (next_tail q v, one)

  advanced-IsValid : IsValid (advanced q)
  unfolding advanced
  advanced-IsValid = record { cells = v.cells; head_in = v.head_in; tail_in = omega arith }

  Drained-nil : (n : ℕ) → contents q ≡ [] → Drained q n (returns [], q)
  Drained-nil zero e = record {
    events = refl;
    left = refl;
    valid = v;
    same_waiting = refl;
    same_overflow = refl;
  }
  Drained-nil (suc n) e = record {
    events = rw e;
    left = rw e;
    valid = v;
    same_waiting = refl;
    same_overflow = refl;
  }

  Drained-cons :
      (n : ℕ) (r : Outcome × EventQueue)
      → (q.head == q.tail) ≡ false
      → Drained (advanced q) n r
      → Drained q (suc n) (and_event (get_or q.buffer q.tail blank) r)
  unfolding advanced
  Drained-cons n (returns es, q') e d = record {
    events = rw (contents_cons e) (ap (and_more (get_or q.buffer q.tail blank)) d.events);
    left = rw (contents_cons e) d.left;
    valid = d.valid;
    same_waiting = d.same_waiting;
    same_overflow = d.same_overflow;
  }
    where
      and_more : Event → Outcome → Outcome
      and_more x (returns xs) = returns (x ∷ xs)
      and_more x o = o
  Drained-cons n (invalid_request, q') e d = cc (d.events)
  Drained-cons n (waits, q') e d = cc (d.events)

module _ (pid : ℕ) (blocking : Bool) where
  read_loop-Drained :
      (rounds total : ℕ) (q : EventQueue)
      → IsValid q
      → ((blocking && total == 0) ≡ false) ⊎ ((q.head == q.tail) ≡ false)
      → Drained q rounds (read_loop pid blocking rounds total q)
  unfolding read_loop advanced
  read_loop-Drained zero total q v h = record {
    events = refl;
    left = refl;
    valid = v;
    same_waiting = refl;
    same_overflow = refl;
  }
  read_loop-Drained (suc rounds) total q v h = elim (Bool-cases (q.head == q.tail)) [
    | inl empty ↦
        let stop : (blocking && total == 0) ≡ false = ground arith in
        rw (empty, stop) (Drained-nil q v (suc rounds) (contents_empty q v empty))
    | inr more ↦ rw more (
        Drained-cons q v rounds (read_loop pid blocking rounds (total + 1) (advanced q)) more (
          read_loop-Drained rounds (total + 1) (advanced q) (advanced-IsValid q v)
            (inl (ground arith))))
  ]

-- A read into a buffer for `bytes / 8` events, at least one, takes that many events off the front,
-- in order, or all if there are fewer; only a blocking read of an empty queue does not return.
pub read_raw-Drained :
    (pid bytes : ℕ) (blocking : Bool) (q : EventQueue)
    → IsValid q
    → event_bytes ≤ bytes
    → (blocking ≡ false) ⊎ (contents q ≢ [])
    → Drained q (bytes / event_bytes) (read_raw pid blocking bytes q)
unfolding read_raw
read_raw-Drained pid bytes blocking q v h b =
    rw (ge→ltb bytes event_bytes h)
      (read_loop-Drained pid blocking (bytes / event_bytes) 0 q v (start b))
  where
    start :
        (blocking ≡ false) ⊎ (contents q ≢ [])
        → ((blocking && 0 == 0) ≡ false) ⊎ ((q.head == q.tail) ≡ false)
    start (inl e) = inl (rw e)
    start (inr ne) = elim (Bool-cases (q.head == q.tail)) [
      | inl empty ↦ absurd (ne (contents_empty q v empty))
      | inr more ↦ inr more
    ]

-- A blocking read of an empty queue puts the process behind those that wait, and changes nothing
-- else.
pub read_waits :
    (pid bytes : ℕ) (q : EventQueue)
    → event_bytes ≤ bytes
    → q.head ≡ q.tail
    → read pid bytes q ≡ (waits, record q { process_queue = q.process_queue ++ (pid ∷ []) })
unfolding read read_raw read_loop
read_waits pid bytes q h e =
    let one : bytes / event_bytes ≡ suc (bytes / event_bytes - 1) = omega arith in
    rw (ge→ltb bytes event_bytes h, one, (==_iff q.head q.tail).1 e)
