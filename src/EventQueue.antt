-- ===== src/EventQueue.antt =====
-- The event queues of `basekernel/kernel/event_queue.c`: a ring of 32 events between the interrupt
-- handlers and the processes that read events.
pub mod Refine
mod Tests
use stage_os.Base.{
  ℕ, zero, suc, ◌+◌, ◌/◌, ◌%◌, ◌^◌, Bool, true, false, ◌&&◌, Option, none, some, List, [], ◌∷◌,
  ◌++◌, ◌==◌, ltb, if◌then◌else◌, get_or, set, replicate,
}

-- `struct event`, each field as its 16 bits
pub record Event : Type 0 where
  pub type : ℕ
  pub code : ℕ
  pub x : ℕ
  pub y : ℕ

abbrev pub blank : Event
blank = record { type = 0; code = 0; x = 0; y = 0 }

-- `EVENT_BUFFER_SIZE`
abbrev pub size : ℕ
size = 32

-- `sizeof(struct event)`
abbrev pub event_bytes : ℕ
event_bytes = 8

-- `struct event_queue`; the list of waiting processes by their pids
pub record EventQueue : Type 0 where
  pub buffer : List Event
  pub process_queue : List ℕ
  pub head : ℕ
  pub tail : ℕ
  pub overflow_count : ℕ

-- `event_queue_create` and `event_queue_create_root`, where the memory is there
pub create : EventQueue
create = record {
  buffer = replicate size blank;
  process_queue = [];
  head = 0;
  tail = 0;
  overflow_count = 0;
}

-- `process_wakeup` on the queue: the process that is made ready, and those that still wait
pub wakeup : List ℕ → Option ℕ × List ℕ
wakeup [] = (none, [])
wakeup (p ∷ ps) = (some p, ps)

-- `event_queue_post`: the queue, and the process that is woken
pub post : Event → EventQueue → EventQueue × Option ℕ
unfolding wakeup
post e q =
    let after : ℕ = (q.head + 1) % size in
    let (woken, waiting) = wakeup q.process_queue in
    if after == q.tail
    then (record q { overflow_count = (q.overflow_count + 1) % 2 ^ 32 }, none)
    else (record q { buffer = set q.buffer q.head e; head = after; process_queue = waiting }, woken)

-- What `event_queue_read_raw` does: it fails, it puts the calling process to sleep (and starts its
-- loop again when the process is woken), or it returns with the events that it stored at `e`.
pub data Outcome : Type 0 where
  invalid_request : Outcome
  waits : Outcome
  returns : List Event → Outcome

abbrev pub and_event : Event → Outcome × EventQueue → Outcome × EventQueue
and_event e (returns es, q) = (returns (e ∷ es), q)
and_event e (invalid_request, q) = (invalid_request, q)
and_event e (waits, q) = (waits, q)

-- The loop of `event_queue_read_raw` for process `pid`, with room for `rounds` events and `total`
-- events read.
pub read_loop : (pid : ℕ) (blocking : Bool) (rounds total : ℕ) → EventQueue → Outcome × EventQueue
read_loop pid blocking zero total q = (returns [], q)
read_loop pid blocking (suc rounds) total q =
    let rest =
      and_event (get_or q.buffer q.tail blank)
        (read_loop pid blocking rounds (total + 1) (record q { tail = (q.tail + 1) % size })) in
    if q.head == q.tail
    then (if blocking && total == 0
        then (waits, record q { process_queue = q.process_queue ++ (pid ∷ []) })
        else (returns [], q))
    else rest

-- `event_queue_read_raw`; `bytes` is the size of the caller's buffer, as an `unsigned`.
pub read_raw : (pid : ℕ) (blocking : Bool) (bytes : ℕ) → EventQueue → Outcome × EventQueue
unfolding read_loop
read_raw pid blocking bytes q =
    if ltb bytes event_bytes
    then (invalid_request, q)
    else read_loop pid blocking (bytes / event_bytes) 0 q

-- `event_queue_read`
pub read : (pid bytes : ℕ) → EventQueue → Outcome × EventQueue
unfolding read_raw
read pid bytes = read_raw pid true bytes

-- `event_queue_read_nonblock`
pub read_nonblock : (pid bytes : ℕ) → EventQueue → Outcome × EventQueue
unfolding read_raw
read_nonblock pid bytes = read_raw pid false bytes
