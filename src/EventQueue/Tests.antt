-- ===== src/EventQueue/Tests.antt =====
-- The queue of `basekernel/kernel/event_queue.c` at a few events.
use stage_os.Base.{
  ℕ, ◌+◌, ◌/◌, ◌%◌, ◌^◌, ◌≡◌, refl, false, some, [], ◌∷◌, ◌++◌, ltb, if◌then◌else◌, length, arith,
  inl, set,
}
use stage_os.EventQueue.{Event, EventQueue, create, post, returns, read_raw, read}
use stage_os.EventQueue.Refine.{IsValid, contents, post_lem, Drained, read_raw-Drained}

abbrev key : ℕ → Event
key c = record { type = 32; code = c; x = 0; y = 0 }

-- Two events lie across the end of the ring, and process 7 waits.
abbrev wrapped : EventQueue
wrapped = record {
  buffer = set (set (create.buffer) 31 (key 1)) 0 (key 2);
  process_queue = 7 ∷ [];
  head = 1;
  tail = 31;
  overflow_count = 0;
}

wrapped-IsValid : IsValid wrapped
unfolding create
wrapped-IsValid = record { cells = refl; head_in = omega arith; tail_in = omega arith }

post_wakes : (post (key 3) wrapped).1 ≡ some 7
unfolding post
post_wakes = refl

read_round_the_end : (read 9 100 wrapped).0 ≡ returns (key 1 ∷ key 2 ∷ [])
unfolding read create
read_round_the_end = refl

post_lem_example :
    (contents (post (key 3) wrapped).0 ≡ (
      if ltb (length (contents wrapped)) 31
      then contents wrapped ++ (key 3 ∷ [])
      else contents wrapped))
    × ((post (key 3) wrapped).0.overflow_count
        ≡ (if ltb (length (contents wrapped)) 31 then 0 else (0 + 1) % 2 ^ 32))
post_lem_example = post_lem wrapped wrapped-IsValid (key 3)

read_raw-Drained_example : Drained wrapped (17 / 8) (read_raw 9 false 17 wrapped)
read_raw-Drained_example =
    read_raw-Drained 9 17 false wrapped wrapped-IsValid (omega arith) (inl refl)

abbrev fresh : EventQueue
fresh = record { buffer = []; process_queue = 4 ∷ []; head = 6; tail = 6; overflow_count = 1 }
