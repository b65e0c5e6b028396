-- ===== src/Clock/Elapsed.antt =====
-- The time that the clock of `basekernel/kernel/clock.c` shows, in milliseconds.
use stage_os.Base.{
  ℕ, zero, suc, ◌+◌, ◌*◌, ◌%◌, ◌<◌, ◌≤◌, ◌≡◌, refl, some, List, [], ◌∷◌, arith, lt→ltb, ge→ltb,
}
use native.Mathlib.Decide.{dec_lt}
use stage_os.Clock.{Clock, Time, word, interrupt, read, diff, ticks, total, wait_loop, wait}

-- The milliseconds since boot
abbrev pub time : Clock → ℕ
time c = c.seconds * 1000 + c.clicks * 50

abbrev pub span : Time → ℕ
span t = t.seconds * 1000 + t.millis

-- A clock between two interrupts, with no second lost so far
pub record IsValid (c : Clock) : Type 0 where
  pub below : c.clicks < 20
  pub range : c.seconds < word

interrupt-step :
    (c : Clock)
    → c.clicks + 1 < 20
    → (interrupt c).0 ≡ record { clicks = c.clicks + 1; seconds = c.seconds; queue = [] }
unfolding interrupt
interrupt-step c lt =
    let small : (c.clicks + 1) % word ≡ c.clicks + 1 = omega arith in ground (arith, small)

interrupt-second :
    (c : Clock)
    → c.clicks ≡ 19
    → c.seconds + 1 < word
    → (interrupt c).0 ≡ record { clicks = 0; seconds = c.seconds + 1; queue = [] }
unfolding interrupt
interrupt-second c e lt =
    let small : (c.clicks + 1) % word ≡ 20 = omega arith in
    let s : (c.seconds + 1) % word ≡ c.seconds + 1 = omega arith in rw (small, s)

-- An interrupt adds 50 milliseconds.
interrupt-time :
    (c : Clock)
    → IsValid c
    → c.seconds + 1 < word
    → (time (interrupt c).0 ≡ time c + 50)
      × IsValid (interrupt c).0
      × ((interrupt c).0.seconds ≤ c.seconds + 1)
interrupt-time c v h = elim (dec_lt (c.clicks + 1) 20) [
  | yes lt ↦
      rw (interrupt-step c lt) (omega arith, record { below = lt; range = v.range }, omega arith)
  | no ge ↦
      rw (interrupt-second c (omega (arith, v.below)) h)
        (omega (arith, v.below), record { below = omega arith; range = h }, omega arith)
]

-- Any number of interrupts adds 50 milliseconds for each.
pub ticks-time :
    (n : ℕ) (c : Clock)
    → IsValid c
    → c.seconds + n < word
    → (time (ticks n c) ≡ time c + 50 * n)
      × IsValid (ticks n c)
      × ((ticks n c).seconds ≤ c.seconds + n)
unfolding ticks
ticks-time zero c v h = (omega arith, v, omega arith)
ticks-time (suc n) c v h =
    let one = interrupt-time c v (omega arith) in
    let rest = ticks-time n (interrupt c).0 one.1 (omega (arith, one.2)) in
    (omega (arith, rest.0, one.0), rest.1, omega (arith, rest.2, one.2))

-- `clock_read` shows the time.
read-span : (c : Clock) → IsValid c → span (read c) ≡ time c
unfolding read
read-span c v = omega (arith, v.below)

-- `clock_diff` of two readings, the first not after the second, is the time between them, with less
-- than a second in its milliseconds.
pub diff-span :
    (start stop : Time)
    → start.millis < 1000
    → stop.millis < 1000
    → start.seconds < word
    → stop.seconds < word
    → span start ≤ span stop
    → (span start + span (diff start stop) ≡ span stop) × ((diff start stop).millis < 1000)
unfolding diff
diff-span start stop hs ht ws wt le = elim (dec_lt stop.millis start.millis) [
  | yes lt ↦ rw (lt→ltb stop.millis start.millis lt) (omega arith, omega arith)
  | no ge ↦ rw (ge→ltb stop.millis start.millis (omega arith)) (omega arith, omega arith)
]

-- `total` is the time between two readings, for the first 2 ^ 32 milliseconds.
total-span :
    (start stop : Time)
    → start.millis < 1000
    → stop.millis < 1000
    → start.seconds < word
    → span start ≤ span stop
    → span stop < word
    → span start + total start stop ≡ span stop
unfolding total
total-span start stop hs ht ws le small =
    let d = diff-span start stop hs ht ws (omega arith) le in omega (arith, d.0, d.1)

-- The interrupts of a schedule of `clock_wait`
abbrev pub interrupts : List ℕ → ℕ
interrupts [] = 0
interrupts (d ∷ ds) = suc d + interrupts ds

read-millis : (c : Clock) → IsValid c → ((read c).millis < 1000) × ((read c).seconds < word)
unfolding read
read-millis c v = (omega (arith, v.below), omega (arith, v.range))

wait_loop-time :
    (schedule : List ℕ) (start : Time) (c : Clock) (millis : ℕ)
    → IsValid c
    → start.millis < 1000
    → start.seconds < word
    → span start ≤ time c
    → time c < span start + millis
    → time c + 50 * interrupts schedule < word
    → span start + millis ≤ time c + 50 * interrupts schedule
    → (c' : Clock) × (wait_loop schedule start c millis ≡ some c')
      × (span start + millis ≤ time c')
      × (time c' ≤ time c + 50 * interrupts schedule)
unfolding wait_loop
wait_loop-time [] start c millis v hs ws le before small enough = absurd (omega arith)
wait_loop-time (d ∷ ds) start c millis v hs ws le before small enough =
    let t = ticks-time (suc d) c v (omega arith) in
    let now = ticks (suc d) c in
    let r = read-millis now t.1 in
    let shown = read-span now t.1 in
    let sum =
      total-span start (read now) hs r.0 ws (omega (arith, shown, t.0))
        (omega (arith, shown, t.0)) in
    elim (dec_lt (total start (read now)) millis) [
      | yes lt ↦
          let rest =
            wait_loop-time ds start now millis t.1 hs ws (omega (arith, t.0))
              (omega (arith, sum, shown)) (omega (arith, t.0)) (omega (arith, t.0)) in
          (
            rest.0,
            rw (lt→ltb (total start (read now)) millis lt) rest.1,
            rest.2,
            omega (arith, rest.3, t.0),
          )
      | no ge ↦ (
        now,
        rw (ge→ltb (total start (read now)) millis (omega arith)) refl,
        omega (arith, sum, shown),
        omega (arith, t.0),
      )
    ]

-- `clock_wait` of at least one millisecond returns when the interrupts of its schedule make up the time
-- asked for, and by then that time has gone by, for the first 2 ^ 32 milliseconds since boot.
pub wait-time :
    (schedule : List ℕ) (c : Clock) (millis : ℕ)
    → IsValid c
    → 0 < millis
    → millis ≤ 50 * interrupts schedule
    → time c + 50 * interrupts schedule < word
    → (c' : Clock) × (wait schedule c millis ≡ some c')
      × (time c + millis ≤ time c')
      × (time c' ≤ time c + 50 * interrupts schedule)
unfolding wait
wait-time schedule c millis v pos enough small =
    let r = read-millis c v in
    let s = read-span c v in
    let w =
      wait_loop-time schedule (read c) c millis v r.0 r.1 (omega (arith, s)) (omega (arith, s))
        small (omega (arith, s)) in
    (w.0, w.1, omega (arith, w.2, s), w.3)
