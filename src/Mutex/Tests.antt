-- ===== src/Mutex/Tests.antt =====
-- A mutex of `basekernel/kernel/mutex.c` between two processes.
use stage_os.Base.{ℕ, ◌≡◌, refl, true, some, [], ◌∷◌, if◌then◌else◌, length}
use stage_os.Mutex.{Mutex, mutex_init, try_lock, wake_first, unlock}
use stage_os.Mutex.Exclusion.{Run, Run-alone}

abbrev held : Mutex
held = record { locked = true; waitqueue = 2 ∷ [] }

unlock_wakes : unlock held ≡ (some 2, mutex_init)
unfolding unlock wake_first
unlock_wakes = refl

held-Run : Run held (1 ∷ [])
unfolding try_lock
held-Run =
    Run.sleeps (record { locked = true; waitqueue = [] }) (1 ∷ []) 2
      (Run.takes mutex_init [] 1 Run.start refl) refl

Run-alone_example : length {A = ℕ} (1 ∷ []) ≡ (if held.locked then 1 else 0)
Run-alone_example = Run-alone held (1 ∷ []) held-Run
