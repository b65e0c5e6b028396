-- ===== src/DiskFs/Format.antt =====
-- A volume that `diskfs_volume_format` of `basekernel/kernel/diskfs.c` made, opened again.
use stage_os.Base.{
  ℕ, zero, suc, ◌+◌, ◌-◌, ◌/◌, ◌^◌, ◌<◌, ◌≤◌, ◌≡◌, ◌⊎◌, inl, refl, ap, ◌∙◌, true, false, none, some,
  List, [], ◌∷◌, ◌==◌, if◌then◌else◌, leb, ==-refl, arith,
}
use stage_os.DiskFs.Layout.{
  Block, zero_block, Superblock, Inode, block_write, get_words, put_words, get_inode, put_inode,
}
use stage_os.DiskFs.Words.{get_words-put_words, get_inode-put_inode, IsInode, AreWords}
use stage_os.DiskFs.Inode.{inode_load, inode_read}
use stage_os.DiskFs.Blocks.{inode_load_lem}
use stage_os.DiskFs.Directory.{
  Dirent, dirent_create, dirent_lookup, put_item, blocks_of, item_inumber, item_type, find_name,
  find_item,
}
use stage_os.DiskFs.Super.{
  volume_open, volume_format, volume_root, format_super, clear_blocks, super_words, words_super,
  root_inode,
}

-- Clearing leaves the blocks outside as they are.
clear_blocks-other :
    (start n m : ℕ) (disk : ℕ → Block)
    → (m < start) ⊎ (start + n ≤ m)
    → clear_blocks start n disk m ≡ disk m
unfolding clear_blocks
clear_blocks-other start zero m disk h = refl
clear_blocks-other start (suc n) m disk h =
    clear_blocks-other start n m (block_write disk (start + n) zero_block) (ground arith)
    ∙ (let other : (m == start + n) ≡ false = ground arith in rw other refl)

-- Block 0 holds the superblock, block 1 the inode of the root directory, and the second data block its
-- item.
format-super_block :
    (nblocks : ℕ) (disk : ℕ → Block)
    → volume_format nblocks disk 0 ≡ put_words zero_block 0 (super_words (format_super nblocks))
unfolding volume_format
format-super_block nblocks disk =
    let disk1 : ℕ → Block =
      block_write disk 0 (put_words zero_block 0 (super_words (format_super nblocks))) in
    let other : (0 == (format_super nblocks).data_start + 1) ≡ false = ground arith in
    rw (other, volume_format)
      (clear_blocks-other 29 (format_super nblocks).bitmap_blocks 0 (clear_blocks 1 28 disk1)
          (inl (omega arith))
        ∙ clear_blocks-other 1 28 0 disk1 (inl (omega arith)))

format-root_block :
    (nblocks : ℕ) (disk : ℕ → Block)
    → volume_format nblocks disk 1 ≡ put_inode zero_block 0 root_inode
unfolding volume_format format_super
format-root_block nblocks disk =
    let other : (1 == 29 + (1 + (nblocks - 28) / 32768) + 1) ≡ false = ground arith in
    rw (other, volume_format) refl

format-item_block :
    (nblocks : ℕ) (disk : ℕ → Block)
    → volume_format nblocks disk ((format_super nblocks).data_start + 1)
      ≡ put_item zero_block 0 0 2 (b'.' ∷ [])
unfolding volume_format
format-item_block nblocks disk =
    rw (==-refl ((format_super nblocks).data_start + 1), volume_format) refl

super-AreWords : (nblocks : ℕ) → nblocks < 2 ^ 32 → AreWords (super_words (format_super nblocks))
unfolding format_super
super-AreWords nblocks small = omega arith

open_with :
    (disk : ℕ → Block) (s : Superblock)
    → s.magic ≡ 0xabcd4321
    → get_words (disk 0) 0 8 ≡ super_words s
    → volume_open disk ≡ some (record { super = s; disk = disk })
unfolding volume_open
open_with disk s m h =
    let right : (s.magic == 0xabcd4321) ≡ true = ground arith in
    ap
      (λ (w : List ℕ).
        if (words_super w).magic == 0xabcd4321
        then some (record { super = words_super w; disk = disk })
        else none)
      h
    ∙ rw right refl

-- A formatted device of fewer than 2 ^ 32 blocks opens, with the superblock that was computed and the
-- blocks as they are.
pub volume_open-volume_format :
    (nblocks : ℕ) (disk : ℕ → Block)
    → nblocks < 2 ^ 32 - 64
    → volume_open (volume_format nblocks disk)
      ≡ some (record { super = format_super nblocks; disk = volume_format nblocks disk })
unfolding format_super
volume_open-volume_format nblocks disk small =
    open_with (volume_format nblocks disk) (format_super nblocks) refl (
      ap (λ b. get_words b 0 8) (format-super_block nblocks disk)
      ∙ get_words-put_words zero_block 0 (super_words (format_super nblocks))
          (super-AreWords nblocks (omega arith)))

root_words : IsInode root_inode
root_words = record { pointers = refl; words = omega arith }

root_load :
    (nblocks : ℕ) (disk : ℕ → Block) (junk : Block)
    → inode_load (format_super nblocks) junk (volume_format nblocks disk) 0 ≡ root_inode
unfolding format_super
root_load nblocks disk junk =
    inode_load_lem (format_super nblocks) junk (volume_format nblocks disk) 0 (omega arith)
    ∙ ap (λ b. get_inode b 0) (format-root_block nblocks disk)
    ∙ get_inode-put_inode zero_block 0 root_inode root_words

-- The root directory of a formatted device
abbrev pub root_dirent : Dirent
root_dirent = record { size = 32; inumber = 0; isdir = true; inode = root_inode }

abbrev pub item_block : Block
item_block = put_item zero_block 0 0 2 (b'.' ∷ [])

pub volume_root-volume_format :
    (nblocks : ℕ) (disk : ℕ → Block) (junk : Block)
    → volume_root junk (record { super = format_super nblocks; disk = volume_format nblocks disk })
      ≡ root_dirent
unfolding volume_root format_super
volume_root-volume_format nblocks disk junk =
    ap (λ i. record { size = i.size; inumber = 0; isdir = true; inode = i })
      (root_load nblocks disk junk)

-- A name found in the first block of a directory
find_name_first :
    (s : Superblock) (disk : ℕ → Block) (d : Inode) (name : List ℕ) (b b' : Block) (n j : ℕ)
    → (inode_read s disk d b 0).1 ≡ b'
    → find_item name b' 128 0 ≡ some j
    → find_name s disk d name b (suc n) 0 ≡ some (0, j, b')
unfolding find_name
find_name_first s disk d name b b' n j e f = rw (e, f, find_name) (ap (λ x. some (0, j, x)) e)

find_item_dot : find_item (b'.' ∷ []) item_block 128 0 ≡ some 0
unfolding find_item put_item
find_item_dot = refl

read_root :
    (nblocks : ℕ) (disk : ℕ → Block) (junk : Block)
    → 1 < (format_super nblocks).data_blocks
    → (inode_read (format_super nblocks) (volume_format nblocks disk) root_inode junk 0).1
      ≡ item_block
unfolding inode_read
read_root nblocks disk junk blocks =
    let inside : leb (format_super nblocks).data_blocks 1 ≡ false = ground arith in
    rw (inside, inode_read) (format-item_block nblocks disk)

find_name_dot :
    (nblocks : ℕ) (disk : ℕ → Block) (junk : Block)
    → 1 < (format_super nblocks).data_blocks
    → find_name (format_super nblocks) (volume_format nblocks disk) root_inode (b'.' ∷ []) junk 1 0
      ≡ some (0, 0, item_block)
find_name_dot nblocks disk junk blocks =
    find_name_first (format_super nblocks) (volume_format nblocks disk) root_inode (b'.' ∷ []) junk
      item_block 0 0 (read_root nblocks disk junk blocks) find_item_dot

create_root :
    (nblocks : ℕ) (disk : ℕ → Block) (junk : Block)
    → some (
        dirent_create
          (format_super nblocks)
          junk
          (volume_format nblocks disk)
          (item_inumber item_block 0)
          (item_type item_block 0))
      ≡ some root_dirent
unfolding dirent_create put_item
create_root nblocks disk junk =
    ap (λ i. some (record { size = i.size; inumber = 0; isdir = true; inode = i }))
      (root_load nblocks disk junk)

dirent_lookup_found :
    (s : Superblock) (junk : Block) (disk : ℕ → Block) (d : Dirent) (name : List ℕ)
    (r : ℕ × ℕ × Block)
    → find_name s disk d.inode name junk (blocks_of d.size) 0 ≡ some r
    → dirent_lookup s junk disk d name
      ≡ some (dirent_create s junk disk (item_inumber r.2 r.1) (item_type r.2 r.1))
unfolding dirent_lookup
dirent_lookup_found s junk disk d name r e = rw (e, dirent_lookup) refl

-- The root directory of a formatted device with at least two data blocks is found again under its
-- name `.`.
pub dirent_lookup-volume_format :
    (nblocks : ℕ) (disk : ℕ → Block) (junk : Block)
    → 1 < (format_super nblocks).data_blocks
    → dirent_lookup
        (format_super nblocks)
        junk
        (volume_format nblocks disk)
        (volume_root junk
          (record { super = format_super nblocks; disk = volume_format nblocks disk }))
        (b'.' ∷ [])
      ≡ some root_dirent
dirent_lookup-volume_format nblocks disk junk blocks =
    ap (λ r. dirent_lookup (format_super nblocks) junk (volume_format nblocks disk) r (b'.' ∷ []))
      (volume_root-volume_format nblocks disk junk)
    ∙ found
  where
    found :
        dirent_lookup
          (format_super nblocks)
          junk
          (volume_format nblocks disk)
          root_dirent
          (b'.' ∷ [])
        ≡ some root_dirent
    found =
        dirent_lookup_found (format_super nblocks) junk (volume_format nblocks disk) root_dirent
          (b'.' ∷ []) (0, 0, item_block) (find_name_dot nblocks disk junk blocks)
        ∙ create_root nblocks disk junk
