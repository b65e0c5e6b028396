-- ===== src/Clock/Tests.antt =====
-- The clock of `basekernel/kernel/clock.c` shortly before a second is full.
use stage_os.Base.{ℕ, ◌+◌, ◌*◌, ◌≤◌, ◌≡◌, refl, true, some, [], ◌∷◌, arith}
use stage_os.Clock.{Clock, Time, interrupt, wait}
use stage_os.Clock.Elapsed.{IsValid, time, interrupts, wait-time}

abbrev late : Clock
late = record { clicks = 19; seconds = 3; queue = 6 ∷ 7 ∷ [] }

late-IsValid : IsValid late
late-IsValid = record { below = omega arith; range = omega arith }

second_full : interrupt late ≡ (record { clicks = 0; seconds = 4; queue = [] }, 6 ∷ 7 ∷ [], true)
unfolding interrupt
second_full = refl

abbrev reading : ℕ → ℕ → Time
reading s m = record { seconds = s; millis = m }

wait-time_example :
    (c' : Clock) × (wait (0 ∷ 2 ∷ []) late 120 ≡ some c')
    × (time late + 120 ≤ time c')
    × (time c' ≤ time late + 50 * interrupts (0 ∷ 2 ∷ []))
wait-time_example =
    wait-time (0 ∷ 2 ∷ []) late 120 late-IsValid (omega arith) (omega arith) (omega arith)
