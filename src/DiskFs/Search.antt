-- ===== src/DiskFs/Search.antt =====
-- What the search for a free data block in `basekernel/kernel/diskfs.c` finds.
use stage_os.Base.{
  ℕ, zero, suc, ◌+◌, ◌*◌, ◌^◌, ◌<◌, ◌≤◌, ◌≡◌, ◌≢◌, ◌⊎◌, inl, inr, refl, none, some, ◌==◌,
  Bool-cases, Option-cases, some-ne-none, arith,
}
use stage_os.DiskFs.Layout.{Block, block_size, put8, Superblock, block_write}
use stage_os.DiskFs.Bitmap.{bit, scan_bits, scan_bytes, scan_blocks, data_block_alloc}

-- A bit that the inner loop finds is clear, is not number 0, and has a number below the count.
pub scan_bits-some :
    (blocks byte first n k r : ℕ)
    → scan_bits blocks byte first n k ≡ some r
    → (bit byte r ≡ 0) × (k ≤ r) × (r < k + n) × (first + r ≢ 0) × (first + r < blocks)
unfolding scan_bits
scan_bits-some blocks byte first zero k r h = cc
scan_bits-some blocks byte first (suc n) k r h = elim (Bool-cases (bit byte k == 0)) [
  | inr used ↦ ground (arith, scan_bits-some blocks byte first n (k + 1) r)
  | inl free ↦ elim (Bool-cases (first + k == 0)) [
    | inl z ↦ ground (arith, scan_bits-some blocks byte first n (k + 1) r)
    | inr nz ↦ ground arith
  ]
]

pub scan_bytes-some :
    (blocks : ℕ) (b : Block) (i n j : ℕ) (r : ℕ × ℕ)
    → scan_bytes blocks b i n j ≡ some r
    → (bit (b r.0) r.1 ≡ 0)
      × (j ≤ r.0)
      × (r.0 < j + n)
      × (r.1 < 8)
      × (i * block_size + r.0 * 8 + r.1 ≢ 0)
      × (i * block_size + r.0 * 8 + r.1 < blocks)
unfolding scan_bytes
scan_bytes-some blocks b i zero j r h = cc
scan_bytes-some blocks b i (suc n) j r h =
    elim (Option-cases (scan_bits blocks (b j) (i * block_size + j * 8) 8 0)) [
      | inl e ↦ ground (arith, scan_bytes-some blocks b i n (j + 1) r (rw (e, scan_bytes) at h))
      | inr (k, e) ↦ ground (arith, scan_bits-some blocks (b j) (i * block_size + j * 8) 8 0 k e)
    ]

-- Where the search finds nothing, every bit with a number that it may give is set.
pub scan_bits-none :
    (blocks byte first n k m : ℕ)
    → scan_bits blocks byte first n k ≡ none
    → k ≤ m
    → m < k + n
    → first + m ≢ 0
    → first + m < blocks
    → bit byte m ≢ 0
unfolding scan_bits
scan_bits-none blocks byte first zero k m h a b nz lt = absurd (omega arith)
scan_bits-none blocks byte first (suc n) k m h a b nz lt = elim (Bool-cases (k == m)) [
  | inl e ↦ let here : k ≡ m = ground arith in ground arith
  | inr e ↦ ground (arith, scan_bits-none blocks byte first n (k + 1) m)
]

pub scan_bytes-none :
    (blocks : ℕ) (b : Block) (i n j m k : ℕ)
    → scan_bytes blocks b i n j ≡ none
    → j ≤ m
    → m < j + n
    → k < 8
    → i * block_size + m * 8 + k ≢ 0
    → i * block_size + m * 8 + k < blocks
    → bit (b m) k ≢ 0
unfolding scan_bytes
scan_bytes-none blocks b i zero j m k h a lt lt8 nz le = absurd (omega arith)
scan_bytes-none blocks b i (suc n) j m k h a lt lt8 nz le =
    elim (Option-cases (scan_bits blocks (b j) (i * block_size + j * 8) 8 0)) [
      | inr (r, e) ↦ absurd (some-ne-none (j, r) (rw (e, scan_bytes) at h))
      | inl e ↦ elim (Bool-cases (j == m)) [
        | inl at ↦
            let here : j ≡ m = ground arith in
            rw here at (scan_bits-none blocks (b j) (i * block_size + j * 8) 8 0 k e) (omega arith)
              (omega arith) (omega arith) (omega arith)
        | inr other ↦
            scan_bytes-none blocks b i n (j + 1) m k (rw (e, scan_bytes) at h) (ground arith)
              (omega arith) lt8 nz le
      ]
    ]

-- The result `r` of a search of `n` bitmap blocks from block `i` on: 0 and the same disk, or the number
-- of a clear bit, not 0 and below the count, and the disk with this bit set.
abbrev pub Outcome : Superblock → (ℕ → Block) → (n i : ℕ) → ℕ × (ℕ → Block) → Type 0
Outcome s disk n i r =
    (r.0 ≡ 0) × (r.1 ≡ disk)
    ⊎ ((at j k : ℕ) × (i ≤ at)
        × (at < i + n)
        × (j < block_size)
        × (k < 8)
        × (bit (disk (s.bitmap_start + at) j) k ≡ 0)
        × (r.0 ≢ 0)
        × (r.0 < s.data_blocks)
        × (r.0 ≡ at * block_size + j * 8 + k)
        × (r.1
            ≡ block_write disk (s.bitmap_start + at)
                (put8 (disk (s.bitmap_start + at)) j (disk (s.bitmap_start + at) j + 2 ^ k))))

Outcome-later :
    (s : Superblock) (disk : ℕ → Block) (n i : ℕ) (r : ℕ × (ℕ → Block))
    → Outcome s disk n (i + 1) r
    → Outcome s disk (suc n) i r
Outcome-later s disk n i r (inl same) = inl same
Outcome-later s disk n i r (inr (at, j, k, a, b, c, d, e, f, g, u, v)) =
    inr (at, j, k, omega arith, omega arith, c, d, e, f, g, u, v)

pub scan_blocks-Outcome :
    (s : Superblock) (disk : ℕ → Block) (n i : ℕ) → Outcome s disk n i (scan_blocks s disk n i)
unfolding scan_blocks
scan_blocks-Outcome s disk zero i = inl (refl, refl)
scan_blocks-Outcome s disk (suc n) i =
    elim (Option-cases (scan_bytes s.data_blocks (disk (s.bitmap_start + i)) i block_size 0)) [
      | inl e ↦
          rw (e, scan_blocks) (Outcome-later s disk n i _ (scan_blocks-Outcome s disk n (i + 1)))
      | inr (r, e) ↦
          let found =
            scan_bytes-some s.data_blocks (disk (s.bitmap_start + i)) i block_size 0 r e in
          rw (e, scan_blocks)
            (inr (
              i,
              r.0,
              r.1,
              omega arith,
              omega arith,
              omega arith,
              found.3,
              found.0,
              found.4,
              found.5,
              refl,
              refl,
            ))
    ]

-- `diskfs_data_block_alloc` gives 0 and leaves the disk as it is, or gives the number of a bit that was
-- clear, which is not 0 and is below the count of blocks, and sets this bit and writes nothing else.
pub data_block_alloc-Outcome :
    (s : Superblock) (disk : ℕ → Block) → Outcome s disk s.bitmap_blocks 0 (data_block_alloc s disk)
unfolding data_block_alloc
data_block_alloc-Outcome s disk = scan_blocks-Outcome s disk s.bitmap_blocks 0
