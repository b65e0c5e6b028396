-- ===== src/Mutex.antt =====
-- The mutexes of `basekernel/kernel/mutex.c`. Processes are numbers, and the wait queue is the list of
-- those that sleep.
pub mod Exclusion
mod Tests
use stage_os.Base.{ℕ, Bool, true, false, Option, none, some, List, [], ◌∷◌, ◌++◌}

-- `struct mutex`
pub record Mutex : Type 0 where
  pub locked : Bool
  pub waitqueue : List ℕ

-- `MUTEX_INIT`
abbrev pub mutex_init : Mutex
mutex_init = record { locked = false; waitqueue = [] }

-- A round of the loop of `mutex_lock` in a process: whether it holds the mutex now. If not it sleeps,
-- and enters the loop again when it is woken.
pub try_lock : ℕ → Mutex → Bool × Mutex
try_lock p m = elim m.locked [
  | true ↦ (false, record m { waitqueue = m.waitqueue ++ (p ∷ []) })
  | false ↦ (true, record m { locked = true })
]

-- `process_wakeup` on the wait queue: the process that is woken, and the queue afterwards
pub wake_first : List ℕ → Option ℕ × List ℕ
wake_first [] = (none, [])
wake_first (p ∷ q) = (some p, q)

-- `mutex_unlock`: the process that is woken, and the mutex afterwards
pub unlock : Mutex → Option ℕ × Mutex
unfolding wake_first
unlock m = let r = wake_first m.waitqueue in (r.0, record { locked = false; waitqueue = r.1 })
