-- ===== src/Mutex/Exclusion.antt =====
-- Mutual exclusion by the mutexes of `basekernel/kernel/mutex.c`.
use stage_os.Base.{
  ℕ, suc, ◌≡◌, refl, ap, true, false, List, [], ◌∷◌, if◌then◌else◌, length, arith, inl, inr,
  Bool-cases,
}
use stage_os.Mutex.{Mutex, mutex_init, try_lock, unlock}

-- What processes can do with a mutex: one that finds it free holds it, one that finds it locked sleeps,
-- and a process that holds it unlocks it. The list has the processes that hold it.
pub data Run : Mutex → List ℕ → Type 0 where
  start : Run mutex_init []
  takes :
      (m : Mutex) (hs : List ℕ) (p : ℕ)
      → Run m hs
      → (try_lock p m).0 ≡ true
      → Run (try_lock p m).1 (p ∷ hs)
  sleeps :
      (m : Mutex) (hs : List ℕ) (p : ℕ)
      → Run m hs
      → (try_lock p m).0 ≡ false
      → Run (try_lock p m).1 hs
  releases : (m : Mutex) (hs : List ℕ) (p : ℕ) → Run m (p ∷ hs) → Run (unlock m).1 hs

try_lock-cases :
    (p n : ℕ) (m : Mutex)
    → n ≡ (if m.locked then 1 else 0)
    → ((try_lock p m).0 ≡ true → suc n ≡ (if (try_lock p m).1.locked then 1 else 0))
      × ((try_lock p m).0 ≡ false → n ≡ (if (try_lock p m).1.locked then 1 else 0))
unfolding try_lock
try_lock-cases p n m h = elim (Bool-cases m.locked) [
  | inl t ↦ rw (t, try_lock) (λ e. cc, λ e. h)
  | inr t ↦ let g = rw t at h in rw (t, try_lock) (λ e. ap suc g, λ e. cc)
]

-- However processes lock a mutex, and those that hold it unlock it, exactly one holds it while it is
-- locked, and none while it is not. `mutex_unlock` itself does not look who calls it.
pub Run-alone : (m : Mutex) (hs : List ℕ) → Run m hs → length hs ≡ (if m.locked then 1 else 0)
unfolding unlock
Run-alone m hs Run.start = refl
Run-alone m hs (Run.takes m' hs' p r e) =
    (try_lock-cases p (length hs') m' (Run-alone m' hs' r)).0 e
Run-alone m hs (Run.sleeps m' hs' p r e) =
    (try_lock-cases p (length hs') m' (Run-alone m' hs' r)).1 e
Run-alone m hs (Run.releases m' hs' p r) = let n = Run-alone m' (p ∷ hs) r in ground (arith, n)
