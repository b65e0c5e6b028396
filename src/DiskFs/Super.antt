-- ===== src/DiskFs/Super.antt =====
-- The volumes of `basekernel/kernel/diskfs.c`: formatting, opening and the root directory.
use stage_os.Base.{
  ℕ, zero, suc, ◌+◌, ◌-◌, ◌*◌, ◌/◌, Option, none, some, List, [], ◌∷◌, ◌==◌, if◌then◌else◌, get_or,
}
use stage_os.DiskFs.Layout.{
  Block, zero_block, put8, block_size, get_words, put_words, put_inode, Superblock, Inode, Volume,
  block_write,
}
use stage_os.DiskFs.Directory.{Dirent, dirent_create, put_item, dir_item}

-- `DISKFS_MAGIC`
abbrev pub diskfs_magic : ℕ
diskfs_magic = 0xabcd4321

abbrev pub super_words : Superblock → List ℕ
super_words s =
    s.magic ∷ s.sb_block_size ∷ s.inode_start ∷ s.inode_blocks ∷ s.bitmap_start ∷ s.bitmap_blocks
    ∷ s.data_start ∷ s.data_blocks ∷ []

abbrev pub words_super : List ℕ → Superblock
words_super w = record {
  magic = get_or w 0 0;
  sb_block_size = get_or w 1 0;
  inode_start = get_or w 2 0;
  inode_blocks = get_or w 3 0;
  bitmap_start = get_or w 4 0;
  bitmap_blocks = get_or w 5 0;
  data_start = get_or w 6 0;
  data_blocks = get_or w 7 0;
}

-- `diskfs_volume_open`
unfoldable pub volume_open : (ℕ → Block) → Option Volume
unfolding get_words
volume_open disk =
    let s = words_super (get_words (disk 0) 0 8) in
    if s.magic == diskfs_magic then some (record { super = s; disk = disk }) else none

-- `diskfs_volume_root`
unfoldable pub volume_root : Block → Volume → Dirent
unfolding dirent_create
volume_root junk v = dirent_create v.super junk v.disk 0 dir_item

-- The superblock that `diskfs_volume_format` computes for a device of `nblocks` blocks, which are at
-- least as many as the inode blocks and the bitmap blocks. `1024 / sizeof(struct diskfs_inode)` is 28.
unfoldable pub format_super : ℕ → Superblock
format_super nblocks =
    let remaining : ℕ = nblocks - 28 in
    let bitmaps : ℕ = 1 + remaining / (block_size * 8) in
    record {
      magic = diskfs_magic;
      sb_block_size = block_size;
      inode_start = 1;
      inode_blocks = 28;
      bitmap_start = 29;
      bitmap_blocks = bitmaps;
      data_start = 29 + bitmaps;
      data_blocks = remaining - bitmaps;
    }

-- The two loops that clear `n` blocks from the last one down
unfoldable pub clear_blocks : ℕ → ℕ → (ℕ → Block) → ℕ → Block
clear_blocks start zero disk = disk
clear_blocks start (suc n) disk = clear_blocks start n (block_write disk (start + n) zero_block)

-- The inode of the root directory
abbrev pub root_inode : Inode
root_inode = record { inuse = 1; size = 32; direct = 1 ∷ 0 ∷ 0 ∷ 0 ∷ 0 ∷ 0 ∷ []; indirect = 0 }

-- `diskfs_volume_format`
unfoldable pub volume_format : ℕ → (ℕ → Block) → ℕ → Block
unfolding put_words clear_blocks format_super put_inode put_item
volume_format nblocks disk =
    let s = format_super nblocks in
    let disk1 = block_write disk 0 (put_words zero_block 0 (super_words s)) in
    let disk2 = clear_blocks s.inode_start s.inode_blocks disk1 in
    let disk3 = clear_blocks s.bitmap_start s.bitmap_blocks disk2 in
    let disk4 = block_write disk3 s.bitmap_start (put8 zero_block 0 3) in
    let disk5 = block_write disk4 s.inode_start (put_inode zero_block 0 root_inode) in
    block_write disk5 (s.data_start + 1) (put_item zero_block 0 0 dir_item (b'.' ∷ []))
