-- ===== src/DiskFs/Freed.antt =====
-- What `diskfs_dirent_remove` of `basekernel/kernel/diskfs.c` does to the directory.
use stage_os.Base.{
  ℕ, zero, suc, ◌+◌, ◌-◌, ◌*◌, ◌/◌, ◌%◌, ◌^◌, ◌<◌, ◌≤◌, ◌≡◌, inl, inr, refl, ap, ◌∙◌, Bool, true,
  false, List, get_or, Option-cases, leb, ltb, ==-refl, arith,
}
use stage_os.DiskFs.Layout.{
  Block, block_size, Superblock, Inode, Status, ok, not_found, region_write,
}
use stage_os.DiskFs.Bitmap.{bit, data_block_free, inumber_free}
use stage_os.DiskFs.Inode.{inode_save}
use stage_os.DiskFs.Directory.{Dirent, find_name, blocks_of, item_inumber}
use stage_os.DiskFs.Release.{put8_self}
use stage_os.DiskFs.Removal.{
  free_direct, free_rest, freed_blocks, remove_item, inode_delete, dirent_remove,
}

-- Clearing a bit of a byte clears it.
bit-clear : (b k : ℕ) → k < 8 → bit ((b - bit b k * 2 ^ k) % 256) k ≡ 0
bit-clear b zero h = omega arith
bit-clear b (suc zero) h = omega arith
bit-clear b (suc (suc zero)) h = omega arith
bit-clear b (suc (suc (suc zero))) h = omega arith
bit-clear b (suc (suc (suc (suc zero)))) h = omega arith
bit-clear b (suc (suc (suc (suc (suc zero))))) h = omega arith
bit-clear b (suc (suc (suc (suc (suc (suc zero)))))) h = omega arith
bit-clear b (suc (suc (suc (suc (suc (suc (suc zero))))))) h = omega arith
bit-clear b (suc (suc (suc (suc (suc (suc (suc (suc k)))))))) h = absurd (omega arith)

-- The bit of a number below 4096 is clear after `diskfs_data_block_free`.
data_block_free-bit :
    (s : Superblock) (junk : Block) (disk : ℕ → Block) (n : ℕ)
    → 0 < s.bitmap_blocks
    → n < block_size
    → bit (data_block_free s junk disk n (s.bitmap_start + 0) (n / 8)) (n % 8) ≡ 0
unfolding data_block_free
data_block_free-bit s junk disk n some_block low =
    let block : n / block_size ≡ 0 = omega arith in
    let byte : n % block_size / 8 ≡ n / 8 = omega arith in
    let place : n % block_size % 8 ≡ n % 8 = omega arith in
    let there : leb s.bitmap_blocks 0 ≡ false = ground arith in
    rw (block, byte, place, there, ==-refl, data_block_free)
      (ap (λ v. bit v (n % 8)) (put8_self (disk (s.bitmap_start + 0)) (n / 8) _)
        ∙ bit-clear (disk (s.bitmap_start + 0) (n / 8)) (n % 8) (omega arith))

-- Writing inodes leaves the blocks behind them as they are.
region_write-other :
    (start blocks : ℕ) (disk : ℕ → Block) (b : Block) (n m : ℕ)
    → start + blocks ≤ m
    → (region_write start blocks disk b n).1 m ≡ disk m
region_write-other start blocks disk b n m h = ground arith

inode_save-other :
    (s : Superblock) (junk : Block) (disk : ℕ → Block) (n m : ℕ) (i : Inode)
    → s.inode_start + s.inode_blocks ≤ m
    → inode_save s junk disk n i m ≡ disk m
unfolding inode_save
inode_save-other s junk disk n m i h =
    region_write-other s.inode_start s.inode_blocks disk _ (n / 113) m h

inumber_free-other :
    (s : Superblock) (junk : Block) (disk : ℕ → Block) (n m : ℕ)
    → s.inode_start + s.inode_blocks ≤ m
    → inumber_free s junk disk n m ≡ disk m
unfolding inumber_free
inumber_free-other s junk disk n m h =
    region_write-other s.inode_start s.inode_blocks disk _ (n / 113) m h

-- The blocks that are freed, for one block
free_direct_one :
    (s : Superblock) (junk : Block) (disk : ℕ → Block) (i : Inode) (n : ℕ)
    → i.size ≤ block_size
    → free_direct s junk i (suc n) 0 0 disk
      ≡ (block_size, data_block_free s junk disk (get_or i.direct 0 0))
unfolding free_direct
free_direct_one s junk disk i n small =
    let all : leb i.size (0 + block_size) ≡ true = ground arith in rw (all, free_direct) refl

freed_lem :
    (s : Superblock) (junk : Block) (disk : ℕ → Block) (i : Inode)
    → i.size ≤ block_size
    → freed_blocks s junk disk i ≡ data_block_free s junk disk (get_or i.direct 0 0)
unfolding freed_blocks free_rest
freed_lem s junk disk i small =
    ap (free_rest s junk i) (free_direct_one s junk disk i 5 small)
    ∙ (let enough : ltb block_size i.size ≡ false = ground arith in rw enough refl)

-- `diskfs_inode_delete` of an inode of at most one block frees this block.
inode_delete-bit :
    (s : Superblock) (junk : Block) (disk : ℕ → Block) (i : Inode) (n : ℕ)
    → 0 < s.bitmap_blocks
    → s.inode_start + s.inode_blocks ≤ s.bitmap_start
    → i.size ≤ block_size
    → get_or i.direct 0 0 < block_size
    → bit
        (inode_delete s junk disk i n (s.bitmap_start + 0) (get_or i.direct 0 0 / 8))
        (get_or i.direct 0 0 % 8)
      ≡ 0
unfolding inode_delete
inode_delete-bit s junk disk i n some_block apart small low =
    ap (λ (b : Block). bit (b (get_or i.direct 0 0 / 8)) (get_or i.direct 0 0 % 8))
      (inumber_free-other s junk _ n (s.bitmap_start + 0) (omega arith)
        ∙ inode_save-other s junk _ n (s.bitmap_start + 0) i (omega arith)
        ∙ ap (λ (d : ℕ → Block). d (s.bitmap_start + 0)) (freed_lem s junk disk i small))
    ∙ data_block_free-bit s junk disk (get_or i.direct 0 0) some_block low

remove_item-deletes :
    (s : Superblock) (junk : Block) (disk : ℕ → Block) (d : Dirent) (r : ℕ × ℕ × Block)
    (full : Bool)
    → (remove_item s junk disk d r full).0 ≡ ok
    → (before : ℕ → Block) × (n : ℕ) × ((remove_item s junk disk d r full).2
        ≡ inode_delete s junk before (remove_item s junk disk d r full).1 n)
unfolding remove_item
remove_item-deletes s junk disk d r true done = cc
remove_item-deletes s junk disk d r false done = (_, item_inumber r.2 r.1, refl)

-- A removal that succeeds ends in `diskfs_inode_delete` of the directory's inode.
dirent_remove-deletes :
    (s : Superblock) (junk : Block) (disk : ℕ → Block) (d : Dirent) (name : List ℕ)
    → (dirent_remove s junk disk d name).0 ≡ ok
    → (before : ℕ → Block) × (n : ℕ) × ((dirent_remove s junk disk d name).2
        ≡ inode_delete s junk before (dirent_remove s junk disk d name).1 n)
unfolding dirent_remove
dirent_remove-deletes s junk disk d name done =
    elim (Option-cases (find_name s disk d.inode name junk (blocks_of d.size) 0)) [
      | inl e ↦ let bad : not_found ≡ ok = rw (e, dirent_remove) at done in cc
      | inr (r, e) ↦
          rw (e, dirent_remove)
            (remove_item-deletes s junk disk d r _ (rw (e, dirent_remove) at done))
    ]

-- After a `diskfs_dirent_remove` that succeeds in a directory of at most one block, this block of the
-- directory, which its inode still names, is marked free, whatever the entry was: the code gives the
-- inode of the directory, not the inode of the entry, to `diskfs_inode_delete`. The bit map has a
-- block and stands behind the inodes, and the number of the block is below 4096.
pub dirent_remove-frees_directory :
    (s : Superblock) (junk : Block) (disk : ℕ → Block) (d : Dirent) (name : List ℕ)
    → 0 < s.bitmap_blocks
    → s.inode_start + s.inode_blocks ≤ s.bitmap_start
    → (dirent_remove s junk disk d name).0 ≡ ok
    → (dirent_remove s junk disk d name).1.size ≤ block_size
    → get_or (dirent_remove s junk disk d name).1.direct 0 0 < block_size
    → bit
        ((dirent_remove s junk disk d name).2
          (s.bitmap_start + 0)
          (get_or (dirent_remove s junk disk d name).1.direct 0 0 / 8))
        (get_or (dirent_remove s junk disk d name).1.direct 0 0 % 8)
      ≡ 0
dirent_remove-frees_directory s junk disk d name some_block apart done small low =
    via (dirent_remove s junk disk d name) (dirent_remove-deletes s junk disk d name done) small low
  where
    via :
        (r : Status × Inode × (ℕ → Block))
        → ((before : ℕ → Block) × (n : ℕ) × (r.2 ≡ inode_delete s junk before r.1 n))
        → r.1.size ≤ block_size
        → get_or r.1.direct 0 0 < block_size
        → bit (r.2 (s.bitmap_start + 0) (get_or r.1.direct 0 0 / 8)) (get_or r.1.direct 0 0 % 8) ≡ 0
    via r (before, n, e) small low =
        ap
          (λ (k : ℕ → Block).
            bit (k (s.bitmap_start + 0) (get_or r.1.direct 0 0 / 8)) (get_or r.1.direct 0 0 % 8))
          e
        ∙ inode_delete-bit s junk before r.1 n some_block apart small low
