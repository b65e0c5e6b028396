-- ===== src/DiskFs/Bitmap.antt =====
-- The bit map of the data blocks of `basekernel/kernel/diskfs.c`, and the numbers of its inodes.
use stage_os.Base.{
  ℕ, zero, suc, ◌+◌, ◌-◌, ◌*◌, ◌/◌, ◌%◌, ◌^◌, Option, none, some, ◌==◌, leb, if◌then◌else◌,
}
use stage_os.DiskFs.Layout.{
  block_size, Block, put8, get32, put32, Superblock, inode_bytes, inodes_per_block, block_write,
  region_read, region_write,
}

-- Bit `k` of a byte
abbrev pub bit : ℕ → ℕ → ℕ
bit byte k = byte / 2 ^ k % 2

-- The inner loop of `diskfs_data_block_alloc`, over `n` bits from bit `k` on: the first free bit whose
-- number is not 0; the loop ends at the first number that is too large. `first` is the number of bit 0.
unfoldable pub scan_bits : (data_blocks byte first n k : ℕ) → Option ℕ
scan_bits blocks byte first zero k = none
scan_bits blocks byte first (suc n) k =
    let later = scan_bits blocks byte first n (k + 1) in
    if bit byte k == 0
    then (if first + k == 0 then later else if leb blocks (first + k) then none else some k)
    else later

-- The loop over `n` bytes from byte `j` of bitmap block `i` on. `char` is signed, so no byte equals
-- 0xff, and every byte is looked at.
unfoldable pub scan_bytes : (data_blocks : ℕ) → Block → (i n j : ℕ) → Option (ℕ × ℕ)
unfolding scan_bits
scan_bytes blocks b i zero j = none
scan_bytes blocks b i (suc n) j =
    let later = scan_bytes blocks b i n (j + 1) in
    elim (scan_bits blocks (b j) (i * block_size + j * 8) 8 0) [
      | some k ↦ some (j, k)
      | none ↦ later
    ]

-- The loop over `n` bitmap blocks from block `i` on: the number of the data block and the disk with
-- its bit set, or 0. The bit is clear before, so setting it adds its weight.
unfoldable pub scan_blocks : Superblock → (ℕ → Block) → (n i : ℕ) → ℕ × (ℕ → Block)
unfolding scan_bytes
scan_blocks s disk zero i = (0, disk)
scan_blocks s disk (suc n) i =
    let later = scan_blocks s disk n (i + 1) in
    let b = disk (s.bitmap_start + i) in
    elim (scan_bytes s.data_blocks b i block_size 0) [
      | none ↦ later
      | some r ↦ (
        i * block_size + r.0 * 8 + r.1,
        block_write disk (s.bitmap_start + i) (put8 b r.0 (b r.0 + 2 ^ r.1)),
      )
    ]

-- `diskfs_data_block_alloc`
unfoldable pub data_block_alloc : Superblock → (ℕ → Block) → ℕ × (ℕ → Block)
unfolding scan_blocks
data_block_alloc s disk = scan_blocks s disk s.bitmap_blocks 0

-- `diskfs_data_block_free`; `junk` is what its buffer holds at first.
unfoldable pub data_block_free : Superblock → Block → (ℕ → Block) → ℕ → ℕ → Block
data_block_free s junk disk n =
    let i = n / block_size in
    let j = n % block_size / 8 in
    let k = n % block_size % 8 in
    let b = (region_read s.bitmap_start s.bitmap_blocks disk junk i).1 in
    let byte = b j - bit (b j) k * 2 ^ k in
    (region_write s.bitmap_start s.bitmap_blocks disk (put8 b j byte) i).1

-- The inner loop of `diskfs_inumber_alloc`, over `n` inodes from inode `j` of the block on
unfoldable pub free_inode : Block → (n j : ℕ) → Option ℕ
free_inode b zero j = none
free_inode b (suc n) j =
    let later = free_inode b n (j + 1) in if get32 b (inode_bytes * j) == 0 then some j else later

-- Its outer loop
unfoldable pub inumber_scan : Superblock → (ℕ → Block) → (n i : ℕ) → ℕ × (ℕ → Block)
unfolding free_inode
inumber_scan s disk zero i = (0, disk)
inumber_scan s disk (suc n) i =
    let later = inumber_scan s disk n (i + 1) in
    let b = disk (s.inode_start + i) in
    elim (free_inode b inodes_per_block 0) [
      | none ↦ later
      | some j ↦ (
        i * inodes_per_block + j,
        block_write disk (s.inode_start + i) (put32 b (inode_bytes * j) 1),
      )
    ]

-- `diskfs_inumber_alloc`
unfoldable pub inumber_alloc : Superblock → (ℕ → Block) → ℕ × (ℕ → Block)
unfolding inumber_scan
inumber_alloc s disk = inumber_scan s disk s.inode_blocks 0

-- `diskfs_inumber_free`
unfoldable pub inumber_free : Superblock → Block → (ℕ → Block) → ℕ → ℕ → Block
inumber_free s junk disk n =
    let i = n / inodes_per_block in
    let b = (region_read s.inode_start s.inode_blocks disk junk i).1 in
    (region_write s.inode_start s.inode_blocks disk
      (put32 b (inode_bytes * (n % inodes_per_block)) 0) i).1
