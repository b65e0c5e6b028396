-- ===== src/DiskFs/Numbering.antt =====
-- How `basekernel/kernel/diskfs.c` numbers the bits of a bit map of several blocks.
use stage_os.Base.{
  ℕ, suc, ◌+◌, ◌-◌, ◌*◌, ◌/◌, ◌%◌, ◌<◌, ◌≤◌, ◌≡◌, ◌≢◌, refl, ap, true, false, none, some, ◌==◌, leb,
  ◌∙◌, arith,
}
use stage_os.DiskFs.Layout.{Block, block_size, Superblock}
use stage_os.DiskFs.Bitmap.{
  bit, scan_bits, scan_bytes, scan_blocks, data_block_alloc, data_block_free,
}
use stage_os.DiskFs.Search.{scan_bytes-none}

-- Block numbers from 4096 times the count of bitmap blocks on are never freed: the code looks for
-- their bit in a bitmap block that does not exist.
pub data_block_free-high :
    (s : Superblock) (junk : Block) (disk : ℕ → Block) (n : ℕ)
    → s.bitmap_blocks * block_size ≤ n
    → data_block_free s junk disk n ≡ disk
unfolding data_block_free
data_block_free-high s junk disk n h =
    let out : leb s.bitmap_blocks (n / block_size) ≡ true = ground arith in
    rw (out, data_block_free) refl

scan_bits_first :
    (blocks byte first n : ℕ)
    → 0 < first
    → first < blocks
    → bit byte 0 ≡ 0
    → scan_bits blocks byte first (suc n) 0 ≡ some 0
unfolding scan_bits
scan_bits_first blocks byte first n above below free =
    let clear : (bit byte 0 == 0) ≡ true = ground arith in
    let nz : (first + 0 == 0) ≡ false = ground arith in
    let le : leb blocks (first + 0) ≡ false = ground arith in rw (clear, nz, le, scan_bits) refl

scan_bytes_first :
    (blocks : ℕ) (b : Block) (i n : ℕ)
    → 0 < i * block_size
    → i * block_size < blocks
    → bit (b 0) 0 ≡ 0
    → scan_bytes blocks b i (suc n) 0 ≡ some (0, 0)
unfolding scan_bytes
scan_bytes_first blocks b i n above below free =
    rw
      (
        scan_bits_first blocks (b 0) (i * block_size + 0 * 8) 7 (omega arith) (omega arith) free,
        scan_bytes,
      )
      refl

scan_blocks_second :
    (s : Superblock) (disk : ℕ → Block) (n : ℕ)
    → block_size < s.data_blocks
    → scan_bytes s.data_blocks (disk (s.bitmap_start + 0)) 0 block_size 0 ≡ none
    → bit (disk (s.bitmap_start + 1) 0) 0 ≡ 0
    → (scan_blocks s disk (suc (suc n)) 0).0 ≡ block_size
unfolding scan_blocks
scan_blocks_second s disk n count full free =
    rw
      (
        full,
        scan_bytes_first s.data_blocks (disk (s.bitmap_start + 1)) 1 4095 (omega arith) count free,
        scan_blocks,
      )
      refl

-- The volume has more blocks than one bitmap block numbers below 4096, the first bitmap block has no
-- free bit left, and the first bit of the second is clear: the code gives number 4096, whose bit in the
-- first bitmap block is set, so this block is in use already.
pub data_block_alloc-twice :
    (s : Superblock) (disk : ℕ → Block)
    → 1 < s.bitmap_blocks
    → block_size < s.data_blocks
    → scan_bytes s.data_blocks (disk s.bitmap_start) 0 block_size 0 ≡ none
    → bit (disk (s.bitmap_start + 1) 0) 0 ≡ 0
    → ((data_block_alloc s disk).0 ≡ block_size)
      × (bit (disk s.bitmap_start (block_size / 8)) (block_size % 8) ≢ 0)
unfolding data_block_alloc
data_block_alloc-twice s disk more count full free =
    let blocks : s.bitmap_blocks ≡ suc (suc (s.bitmap_blocks - 2)) = omega arith in
    let start : s.bitmap_start + 0 ≡ s.bitmap_start = omega arith in
    (
      ap (λ n. (scan_blocks s disk n 0).0) blocks
          ∙ scan_blocks_second s disk (s.bitmap_blocks - 2) count
              (ap (λ at. scan_bytes s.data_blocks (disk at) 0 block_size 0) start ∙ full) free,
      scan_bytes-none s.data_blocks (disk s.bitmap_start) 0 block_size 0 512 0 full (omega arith)
          (omega arith) (omega arith) (omega arith) (omega arith),
    )
