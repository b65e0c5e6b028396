-- ===== src/DiskFs/Layout.antt =====
-- The contents of a block of `basekernel/kernel/diskfs.h`, byte by byte, and the structures in it.
use stage_os.Base.{
  ℕ, zero, suc, ◌+◌, ◌*◌, ◌/◌, ◌%◌, List, [], ◌∷◌, ◌==◌, leb, if◌then◌else◌, get_or,
}

abbrev pub block_size : ℕ
block_size = 4096

-- `struct diskfs_block`: the byte at each place
abbrev pub Block : Type 0
Block = ℕ → ℕ

abbrev pub zero_block : Block
zero_block at = 0

-- A byte is stored.
abbrev pub put8 : Block → ℕ → ℕ → Block
put8 b at v p = if p == at then v % 256 else b p

-- A little-endian word of 32 bits
abbrev pub get32 : Block → ℕ → ℕ
get32 b at = b at + 256 * b (at + 1) + 65536 * b (at + 2) + 16777216 * b (at + 3)

abbrev pub put32 : Block → ℕ → ℕ → Block
put32 b at v =
    put8 (put8 (put8 (put8 b at v) (at + 1) (v / 256)) (at + 2) (v / 65536)) (at + 3) (v / 16777216)

-- Words one after the other, as `memcpy` of a structure moves them
unfoldable pub get_words : Block → ℕ → ℕ → List ℕ
get_words b at zero = []
get_words b at (suc n) = get32 b at ∷ get_words b (at + 4) n

unfoldable pub put_words : Block → ℕ → List ℕ → Block
put_words b at [] = b
put_words b at (v ∷ vs) = put_words (put32 b at v) (at + 4) vs

-- Bytes one after the other
unfoldable pub get_bytes : Block → ℕ → ℕ → List ℕ
get_bytes b at zero = []
get_bytes b at (suc n) = b at ∷ get_bytes b (at + 1) n

unfoldable pub put_bytes : Block → ℕ → List ℕ → Block
put_bytes b at [] = b
put_bytes b at (v ∷ vs) = put_bytes (put8 b at v) (at + 1) vs

-- `struct diskfs_superblock`
pub record Superblock : Type 0 where
  pub magic : ℕ
  pub sb_block_size : ℕ
  pub inode_start : ℕ
  pub inode_blocks : ℕ
  pub bitmap_start : ℕ
  pub bitmap_blocks : ℕ
  pub data_start : ℕ
  pub data_blocks : ℕ

-- `struct diskfs_inode`; `direct` has `direct_pointers` words.
pub record Inode : Type 0 where
  pub inuse : ℕ
  pub size : ℕ
  pub direct : List ℕ
  pub indirect : ℕ

abbrev pub direct_pointers : ℕ
direct_pointers = 6

-- The size of a `struct diskfs_inode` and how many a block holds
abbrev pub inode_bytes : ℕ
inode_bytes = 36

abbrev pub inodes_per_block : ℕ
inodes_per_block = 113

-- The same of a `struct diskfs_item`, and the number of pointers
abbrev pub item_bytes : ℕ
item_bytes = 32

abbrev pub items_per_block : ℕ
items_per_block = 128

abbrev pub pointers_per_block : ℕ
pointers_per_block = 1024

abbrev pub inode_words : Inode → List ℕ
inode_words i =
    i.inuse
    ∷ i.size
    ∷ get_or i.direct 0 0
    ∷ get_or i.direct 1 0
    ∷ get_or i.direct 2 0
    ∷ get_or i.direct 3 0
    ∷ get_or i.direct 4 0
    ∷ get_or i.direct 5 0
    ∷ i.indirect
    ∷ []

abbrev pub words_inode : List ℕ → Inode
words_inode w = record {
  inuse = get_or w 0 0;
  size = get_or w 1 0;
  direct =
      get_or w 2 0 ∷ get_or w 3 0 ∷ get_or w 4 0 ∷ get_or w 5 0 ∷ get_or w 6 0 ∷ get_or w 7 0 ∷ [];
  indirect = get_or w 8 0;
}

-- `b->inodes[j]`
unfoldable pub get_inode : Block → ℕ → Inode
unfolding get_words
get_inode b j = words_inode (get_words b (inode_bytes * j) 9)

unfoldable pub put_inode : Block → ℕ → Inode → Block
unfolding put_words
put_inode b j i = put_words b (inode_bytes * j) (inode_words i)

-- A volume: its superblock in memory, and the blocks of its device
pub record Volume : Type 0 where
  pub super : Superblock
  pub disk : ℕ → Block

-- `diskfs_block_write`
abbrev pub block_write : (ℕ → Block) → ℕ → Block → ℕ → Block
block_write disk n b m = if m == n then b else disk m

-- What a function of diskfs.c returns: `DISKFS_BLOCK_SIZE` or another success, or an error
pub data Status : Type 0 where
  ok out_of_space not_found not_empty : Status

-- `diskfs_bitmap_block_read`, `diskfs_inode_block_read` and `diskfs_data_block_read` into a buffer
-- that holds `b`: they refuse a block outside the region.
abbrev pub region_read : (start blocks : ℕ) → (ℕ → Block) → Block → ℕ → Status × Block
region_read start blocks disk b n =
    if leb blocks n then (out_of_space, b) else (ok, disk (start + n))

-- The three functions that write
abbrev pub region_write : (start blocks : ℕ) → (ℕ → Block) → Block → ℕ → Status × (ℕ → Block)
region_write start blocks disk b n =
    if leb blocks n then (out_of_space, disk) else (ok, block_write disk (start + n) b)
