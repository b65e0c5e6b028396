-- ===== src/Cell/Masks.antt =====
-- The laws of the three masks of `basekernel/kernel/page.c` and of its search for a set bit.
use stage_os.Base.{
  ℕ, zero, suc, ◌+◌, ◌-◌, ◌*◌, ◌/◌, ◌%◌, ◌≤◌, ◌<◌, ◌≡◌, ◌∙◌, refl, ap, inl, inr, ◌==◌, Bool-cases,
  true, false, none, some, arith, if◌then◌else◌,
}
use native.Mathlib.Decide.{ℕ_discrete}
use stage_os.Cell.{test_bit, clear_bit, set_bit, find_bit}

pub test_bit-clear_bit :
    (c j k : ℕ) → test_bit (clear_bit c j) k ≡ (if k == j then false else test_bit c k)
unfolding test_bit clear_bit
test_bit-clear_bit c zero zero = ground arith
test_bit-clear_bit c zero (suc k) =
    let half : (c - c % 2) / 2 ≡ c / 2 = omega arith in rw half (ground arith)
test_bit-clear_bit c (suc j) zero = ground arith
test_bit-clear_bit c (suc j) (suc k) =
    ap (λ d. test_bit d k) half ∙ ground (arith, test_bit-clear_bit (c / 2) j k)
  where
    half : (c % 2 + 2 * clear_bit (c / 2) j) / 2 ≡ clear_bit (c / 2) j
    half = omega arith

pub test_bit-set_bit :
    (c j k : ℕ) → test_bit (set_bit c j) k ≡ (if k == j then true else test_bit c k)
unfolding test_bit set_bit
test_bit-set_bit c zero zero = ground arith
test_bit-set_bit c zero (suc k) =
    let half : (c - c % 2 + 1) / 2 ≡ c / 2 = omega arith in rw half (ground arith)
test_bit-set_bit c (suc j) zero = ground arith
test_bit-set_bit c (suc j) (suc k) =
    ap (λ d. test_bit d k) half ∙ ground (arith, test_bit-set_bit (c / 2) j k)
  where
    half : (c % 2 + 2 * set_bit (c / 2) j) / 2 ≡ set_bit (c / 2) j
    half = omega arith

-- Setting a bit that was cleared gives the cell back.
pub set_bit-clear_bit : (c j : ℕ) → test_bit c j ≡ true → set_bit (clear_bit c j) j ≡ c
unfolding test_bit clear_bit set_bit
set_bit-clear_bit c zero h = ground arith
set_bit-clear_bit c (suc j) h =
    omega (arith, set_bit-clear_bit (c / 2) j h, ap (λ d. set_bit d j) half)
  where
    half : (c % 2 + 2 * clear_bit (c / 2) j) / 2 ≡ clear_bit (c / 2) j
    half = omega arith

pub clear_bit-le : (c j : ℕ) → clear_bit c j ≤ c
unfolding clear_bit
clear_bit-le c zero = omega arith
clear_bit-le c (suc j) = omega (arith, clear_bit-le (c / 2) j)

-- No bit of zero is set.
pub test_bit-zero : (j : ℕ) → test_bit 0 j ≡ false
unfolding test_bit
test_bit-zero zero = refl
test_bit-zero (suc j) = test_bit-zero j

-- What the search returns is the first set bit of its range.
pub find_bit-first :
    (k j c n : ℕ)
    → find_bit k j c ≡ some n
    → (test_bit c n ≡ true)
      × (n < j + k)
      × (j ≤ n)
      × ((m : ℕ) → j ≤ m → m < n → test_bit c m ≡ false)
unfolding find_bit
find_bit-first zero j c n h = cc
find_bit-first (suc k) j c n h = elim (Bool-cases (test_bit c j)) [
  | inl e ↦ ground arith
  | inr e ↦ after e (find_bit-first k (j + 1) c n (rw e at h))
]
  where
    after :
        test_bit c j ≡ false
        → (test_bit c n ≡ true)
          × (n < j + 1 + k)
          × (j + 1 ≤ n)
          × ((m : ℕ) → j + 1 ≤ m → m < n → test_bit c m ≡ false)
        → (test_bit c n ≡ true)
          × (n < j + suc k)
          × (j ≤ n)
          × ((m : ℕ) → j ≤ m → m < n → test_bit c m ≡ false)
    after e r = (
      r.0,
      omega arith,
      omega arith,
      λ m a b. elim (ℕ_discrete m j) [ yes p ↦ rw p e | no p ↦ r.3 m (omega arith) b ],
    )

-- It returns nothing only if no bit of the range is set.
pub find_bit-none :
    (k j c : ℕ) → find_bit k j c ≡ none → (m : ℕ) → j ≤ m → m < j + k → test_bit c m ≡ false
unfolding find_bit
find_bit-none zero j c h m a b = absurd (omega arith)
find_bit-none (suc k) j c h m a b = elim (Bool-cases (test_bit c j)) [
  | inl e ↦ ground arith
  | inr e ↦ elim (ℕ_discrete m j) [
    | yes p ↦ rw p e
    | no p ↦ find_bit-none k (j + 1) c (rw e at h) m (omega arith) (omega arith)
  ]
]
