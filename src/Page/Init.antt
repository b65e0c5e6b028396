-- ===== src/Page/Init.antt =====
-- What `page_init` of `basekernel/kernel/page.c` writes into the bit map.
use stage_os.Base.{
  ℕ, zero, suc, ◌+◌, ◌-◌, ◌*◌, ◌/◌, ◌<◌, ◌≡◌, refl, true, some, List, [], ◌∷◌, arith, ltb,
  if◌then◌else◌, length, min,
}
use native.Mathlib.Decide.{dec_lt}
use stage_os.Cell.{test_bit}
use stage_os.Page.{Pages, fill_bytes, fill_cells, pages_of, start}
use stage_os.Page.Freemap.{is_free, is_free-below, is_free-above}

-- `k` ones under the digits of `d`
abbrev ones : ℕ → ℕ → ℕ
ones zero d = d
ones (suc k) d = 1 + 2 * ones k d

test_bit-ones : (k d j : ℕ) → test_bit (ones k d) j ≡ (if ltb j k then true else test_bit d (j - k))
unfolding test_bit
test_bit-ones zero d j = let e : j - 0 ≡ j = omega arith in rw e (ground arith)
test_bit-ones (suc k) d zero = ground arith
test_bit-ones (suc k) d (suc j) =
    let half : (1 + 2 * ones k d) / 2 ≡ ones k d = omega arith in
    let e : suc j - suc k ≡ j - k = omega arith in
    rw (half, e) (ground (arith, test_bit-ones k d j))

test_bit-byte :
    (d j : ℕ) → test_bit (255 + 256 * d) j ≡ (if ltb j 8 then true else test_bit d (j - 8))
test_bit-byte d j = let e : 255 + 256 * d ≡ ones 8 d = omega arith in rw e (test_bit-ones 8 d j)

test_bit-div_256 : (c j : ℕ) → test_bit (c / 256) j ≡ test_bit c (8 + j)
unfolding test_bit
test_bit-div_256 c j =
    let e : c / 256 ≡ c / 2 / 2 / 2 / 2 / 2 / 2 / 2 / 2 = omega arith in
    let f : 8 + j ≡ suc (suc (suc (suc (suc (suc (suc (suc j))))))) = omega arith in rw (e, f)

test_bit-fill_bytes :
    (b c j : ℕ) → test_bit (fill_bytes b c) j ≡ (if ltb j (8 * b) then true else test_bit c j)
unfolding fill_bytes
test_bit-fill_bytes zero c j = ground arith
test_bit-fill_bytes (suc b) c j = elim (dec_lt j 8) [
  | yes p ↦ ground (arith, test_bit-byte (fill_bytes b (c / 256)) j)
  | no p ↦
      let e : 8 + (j - 8) ≡ j = omega arith in
      ground (
        arith,
        test_bit-byte (fill_bytes b (c / 256)) j,
        test_bit-fill_bytes b (c / 256) (j - 8),
        test_bit-div_256 c (j - 8),
        e,
      )
]

is_free-fill_cells :
    (bytes : ℕ) (ram : List ℕ) (n : ℕ)
    → n < 32 * length ram
    → is_free (fill_cells bytes ram) n ≡ (if ltb n (8 * bytes) then true else is_free ram n)
unfolding fill_cells
is_free-fill_cells bytes [] n h = absurd (omega arith)
is_free-fill_cells bytes (c ∷ cs) n h = elim (dec_lt n 32) [
  | yes p ↦ ground (
    arith,
    is_free-below (fill_bytes (min bytes 4) c) (fill_cells (bytes - 4) cs) n p,
    is_free-below c cs n p,
    test_bit-fill_bytes (min bytes 4) c n,
  )
  | no p ↦ ground (
    arith,
    is_free-above (fill_bytes (min bytes 4) c) (fill_cells (bytes - 4) cs) n (omega arith),
    is_free-above c cs n (omega arith),
    is_free-fill_cells (bytes - 4) cs (n - 32) (omega arith),
  )
]

-- The map that `page_init` starts from: the first `8 * (1 + pages_total / 8)` pages are free, and
-- beyond them stands what memory happened to hold.
pub start-is_free :
    (total_memory : ℕ) (ram : List ℕ) (s : Pages) (n : ℕ)
    → length ram ≡ 1 + pages_of total_memory / 32
    → n < 32 * length ram
    → (cells : List ℕ) × ((start total_memory ram s).freemap ≡ some cells)
      × (is_free cells n
          ≡ (if ltb n (8 * (1 + pages_of total_memory / 8)) then true else is_free ram n))
unfolding start
start-is_free total_memory ram s n e h = (
  fill_cells (1 + pages_of total_memory / 8) ram,
  refl,
  is_free-fill_cells (1 + pages_of total_memory / 8) ram n h,
)
