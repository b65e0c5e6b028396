-- ===== src/Cell.antt =====
-- One 32-bit cell of a bit map, as `basekernel/kernel/page.c` reads and writes it through the mask
-- `1 << j`: `cell & mask`, `cell & ~mask` and `cell | mask`, by the binary digits of the cell.
pub mod Masks
use stage_os.Base.{
  ℕ, zero, suc, ◌+◌, ◌-◌, ◌*◌, ◌/◌, ◌%◌, Bool, ◌==◌, Option, none, some, if◌then◌else◌,
}

-- `cell & (1 << j)` is not zero.
unfoldable pub test_bit : ℕ → ℕ → Bool
test_bit c zero = c % 2 == 1
test_bit c (suc j) = test_bit (c / 2) j

-- `cell & ~(1 << j)`
unfoldable pub clear_bit : ℕ → ℕ → ℕ
clear_bit c zero = c - c % 2
clear_bit c (suc j) = c % 2 + 2 * clear_bit (c / 2) j

-- `cell | (1 << j)`
unfoldable pub set_bit : ℕ → ℕ → ℕ
set_bit c zero = c - c % 2 + 1
set_bit c (suc j) = c % 2 + 2 * set_bit (c / 2) j

-- The loop over j: the first of the next `k` bits, from `j` on, that is set.
unfoldable pub find_bit : ℕ → ℕ → ℕ → Option ℕ
unfolding test_bit
find_bit zero j c = none
find_bit (suc k) j c = if test_bit c j then some j else find_bit k (j + 1) c
