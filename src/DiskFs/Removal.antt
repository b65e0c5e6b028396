-- ===== src/DiskFs/Removal.antt =====
-- `diskfs_inode_delete` and `diskfs_dirent_remove` of `basekernel/kernel/diskfs.c`.
use stage_os.Base.{
  ℕ, zero, suc, ◌+◌, ◌*◌, Bool, true, false, ◌&&◌, none, some, List, ◌==◌, ltb, leb, if◌then◌else◌,
  get_or,
}
use stage_os.DiskFs.Layout.{
  Block, block_size, put8, get32, item_bytes, Superblock, Inode, Status, ok, not_found, not_empty,
  direct_pointers, pointers_per_block,
}
use stage_os.DiskFs.Inode.{inode_load, inode_save, inode_write, data_block_read}
use stage_os.DiskFs.Bitmap.{data_block_free, inumber_free}
use stage_os.DiskFs.Directory.{
  Dirent, find_name, item_inumber, item_type, blank_item, dir_item, blocks_of,
}

-- The first loop of `diskfs_inode_delete`, over `n` pointers from pointer `k` on, with the size freed
-- so far: the size and the disk. A block of the volume has 4096 bytes.
unfoldable pub free_direct :
    Superblock → Block → Inode → (n k size : ℕ) → (ℕ → Block) → ℕ × (ℕ → Block)
unfolding data_block_free
free_direct s junk i zero k size disk = (size, disk)
free_direct s junk i (suc n) k size disk =
    let disk' = data_block_free s junk disk (get_or i.direct k 0) in
    let later = free_direct s junk i n (k + 1) (size + block_size) disk' in
    if leb i.size (size + block_size) then (size + block_size, disk') else later

-- The second loop, over the pointers of the indirect block
unfoldable pub free_pointers :
    Superblock → Block → Inode → Block → (n k size : ℕ) → (ℕ → Block) → ℕ → Block
unfolding data_block_free
free_pointers s junk i b zero k size disk = disk
free_pointers s junk i b (suc n) k size disk =
    let disk' = data_block_free s junk disk (get32 b (4 * k)) in
    let later = free_pointers s junk i b n (k + 1) (size + block_size) disk' in
    if leb i.size (size + block_size) then disk' else later

-- The second loop runs only where the first has not freed the whole size.
unfoldable pub free_rest : Superblock → Block → Inode → ℕ × (ℕ → Block) → ℕ → Block
free_rest s junk i r =
    let b = (data_block_read s r.1 junk i.indirect).1 in
    let more = free_pointers s junk i b pointers_per_block 0 r.0 r.1 in
    if ltb r.0 i.size then more else r.1

-- The disk after both loops
unfoldable pub freed_blocks : Superblock → Block → (ℕ → Block) → Inode → ℕ → Block
freed_blocks s junk disk i = free_rest s junk i (free_direct s junk i direct_pointers 0 0 disk)

-- `diskfs_inode_delete`. Its `memset` has its arguments swapped and clears nothing, so the inode is
-- saved as it is.
unfoldable pub inode_delete : Superblock → Block → (ℕ → Block) → Inode → ℕ → ℕ → Block
inode_delete s junk disk i n =
    inumber_free s junk (inode_save s junk (freed_blocks s junk disk i) n i) n

-- The entry is a directory that is not empty.
unfoldable pub is_full_dir : Superblock → Block → (ℕ → Block) → (type inumber : ℕ) → Bool
unfolding inode_load
is_full_dir s junk disk type inumber =
    (type == dir_item) && ltb 0 (inode_load s junk disk inumber).size

-- The item `r` is removed, unless it is a full directory. It is the inode of the directory `d` that is
-- given to `diskfs_inode_delete`.
unfoldable pub remove_item :
    Superblock → Block → (ℕ → Block) → Dirent → ℕ × ℕ × Block → Bool → Status × Inode × (ℕ → Block)
remove_item s junk disk d r true = (not_empty, d.inode, disk)
remove_item s junk disk d r false =
    let w =
      inode_write s junk d.inumber d.inode disk (put8 r.2 (item_bytes * r.1 + 4) blank_item) r.0 in
    (ok, w.1, inode_delete s junk w.2 w.1 (item_inumber r.2 r.1))

-- `diskfs_dirent_remove`: the status, the inode of the directory in memory and the disk
unfoldable pub dirent_remove :
    Superblock → Block → (ℕ → Block) → Dirent → List ℕ → Status × Inode × (ℕ → Block)
dirent_remove s junk disk d name = elim (find_name s disk d.inode name junk (blocks_of d.size) 0) [
  | none ↦ (not_found, d.inode, disk)
  | some r ↦
      remove_item s junk disk d r
        (is_full_dir s junk disk (item_type r.2 r.1) (item_inumber r.2 r.1))
]
