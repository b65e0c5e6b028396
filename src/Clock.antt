-- ===== src/Clock.antt =====
-- The clock of `basekernel/kernel/clock.c`, which is interrupted twenty times a second.
pub mod Elapsed
mod Tests
use stage_os.Base.{
  ℕ, zero, suc, ◌+◌, ◌-◌, ◌*◌, ◌/◌, ◌%◌, ◌^◌, Bool, true, false, Option, none, some, List, [], ◌∷◌,
  ltb, leb, if◌then◌else◌,
}

abbrev pub clicks_per_second : ℕ
clicks_per_second = 20

abbrev pub word : ℕ
word = 2 ^ 32

-- The statics of clock.c; `queue` holds the processes that sleep in `clock_wait`.
pub record Clock : Type 0 where
  clicks : ℕ
  seconds : ℕ
  queue : List ℕ

-- `clock_t`
pub record Time : Type 0 where
  seconds : ℕ
  millis : ℕ

-- `clock_interrupt`: the clock afterwards, the processes that it makes ready, and whether it calls
-- `process_preempt`.
pub interrupt : Clock → Clock × List ℕ × Bool
interrupt c =
    let clicks = (c.clicks + 1) % word in
    if leb clicks_per_second clicks
    then (record { clicks = 0; seconds = (c.seconds + 1) % word; queue = [] }, c.queue, true)
    else (record { clicks = clicks; seconds = c.seconds; queue = [] }, c.queue, false)

-- `clock_read`
pub read : Clock → Time
read c = record { seconds = c.seconds; millis = 1000 * c.clicks % word / clicks_per_second }

-- `clock_diff`, on 32-bit words
pub diff : Time → Time → Time
diff start stop =
    if ltb stop.millis start.millis
    then record {
      seconds = ((stop.seconds + word - 1) % word + word - start.seconds) % word;
      millis = ((stop.millis + 1000) % word + word - start.millis) % word;
    }
    else record {
      seconds = (stop.seconds + word - start.seconds) % word;
      millis = (stop.millis + word - start.millis) % word;
    }

-- Some interrupts, one after the other
pub ticks : ℕ → Clock → Clock
unfolding interrupt
ticks zero c = c
ticks (suc n) c = ticks n (interrupt c).0

-- `total` in `clock_wait`
pub total : Time → Time → ℕ
unfolding diff
total start now = let e = diff start now in (e.millis + e.seconds * 1000 % word) % word

-- The loop of `clock_wait`. A process that waits is made ready by the next interrupt; each element of
-- the schedule is the number of further ones until it runs. At its end the process still waits.
pub wait_loop : List ℕ → Time → Clock → ℕ → Option Clock
unfolding ticks read total
wait_loop [] start c millis = none
wait_loop (d ∷ ds) start c millis =
    let c' = ticks (suc d) c in
    let later = wait_loop ds start c' millis in
    if ltb (total start (read c')) millis then later else some c'

-- `clock_wait`
pub wait : List ℕ → Clock → ℕ → Option Clock
unfolding wait_loop
wait schedule c millis = wait_loop schedule (read c) c millis
