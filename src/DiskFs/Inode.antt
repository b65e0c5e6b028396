-- ===== src/DiskFs/Inode.antt =====
-- `diskfs_inode_load` to `diskfs_inode_write` of `basekernel/kernel/diskfs.c`: the inodes on the disk,
-- and the blocks of the file of an inode, direct and by the one indirect block.
use stage_os.Base.{ℕ, ◌-◌, ◌*◌, ◌/◌, ◌%◌, ◌==◌, ltb, if◌then◌else◌, get_or, set}
use stage_os.DiskFs.Layout.{
  Block, zero_block, get32, put32, Superblock, Inode, direct_pointers, inodes_per_block, get_inode,
  put_inode, Status, out_of_space, region_read, region_write,
}
use stage_os.DiskFs.Bitmap.{data_block_alloc}

-- `diskfs_inode_load`; `junk` is what its buffer holds before the read.
unfoldable pub inode_load : Superblock → Block → (ℕ → Block) → ℕ → Inode
unfolding get_inode
inode_load s junk disk n =
    get_inode (region_read s.inode_start s.inode_blocks disk junk (n / inodes_per_block)).1
      (n % inodes_per_block)

-- `diskfs_inode_save`
unfoldable pub inode_save : Superblock → Block → (ℕ → Block) → ℕ → Inode → ℕ → Block
unfolding put_inode
inode_save s junk disk n i =
    let at = n / inodes_per_block in
    let b = (region_read s.inode_start s.inode_blocks disk junk at).1 in
    (region_write s.inode_start s.inode_blocks disk (put_inode b (n % inodes_per_block) i) at).1

-- `diskfs_data_block_read` and `diskfs_data_block_write`
unfoldable pub data_block_read : Superblock → (ℕ → Block) → Block → ℕ → Status × Block
data_block_read s disk b n = region_read s.data_start s.data_blocks disk b n

unfoldable pub data_block_write : Superblock → (ℕ → Block) → Block → ℕ → Status × (ℕ → Block)
data_block_write s disk b n = region_write s.data_start s.data_blocks disk b n

-- `diskfs_inode_read` into a buffer that holds `b`; the block number is one that an inode can hold.
unfoldable pub inode_read : Superblock → (ℕ → Block) → Inode → Block → ℕ → Status × Block
unfolding data_block_read
inode_read s disk i b n =
    if ltb n direct_pointers
    then data_block_read s disk b (get_or i.direct n 0)
    else let pointers = (data_block_read s disk b i.indirect).1 in
      data_block_read s disk pointers (get32 pointers (4 * (n - direct_pointers)))

-- The inode in memory, the disk and a buffer while `diskfs_inode_write` finds its block. The number
-- found is 0 if there is no space.
pub record Target : Type 0 where
  pub actual : ℕ
  pub inode : Inode
  pub disk : ℕ → Block
  pub buffer : Block

module _ (s : Superblock) (junk : Block) (inumber : ℕ) where
  -- The direct pointers
  unfoldable pub direct_target : Inode → (ℕ → Block) → ℕ → Target
  direct_target i disk n =
      let found : ℕ = get_or i.direct n 0 in
      let (fresh, disk') = data_block_alloc s disk in
      let i' : Inode = record i { direct = set i.direct n fresh } in
      if found == 0
      then (if fresh == 0
          then record { actual = 0; inode = i; disk = disk'; buffer = junk }
          else record {
            actual = fresh;
            inode = i';
            disk = inode_save s junk disk' inumber i';
            buffer = junk;
          })
      else record { actual = found; inode = i; disk = disk; buffer = junk }

  -- The indirect block, allocated and cleared if there is none
  unfoldable pub indirect_block : Inode → (ℕ → Block) → Target
  unfolding data_block_write
  indirect_block i disk =
      let (fresh, disk') = data_block_alloc s disk in
      let i' : Inode = record i { indirect = fresh } in
      if i.indirect == 0
      then (if fresh == 0
          then record { actual = 0; inode = i; disk = disk'; buffer = junk }
          else record {
            actual = fresh;
            inode = i';
            disk = (data_block_write s (inode_save s junk disk' inumber i') zero_block fresh).1;
            buffer = zero_block;
          })
      else record { actual = i.indirect; inode = i; disk = disk; buffer = junk }

  -- Pointer `k` of the indirect block
  unfoldable pub pointer_target : Target → ℕ → Target
  unfolding data_block_read data_block_write
  pointer_target t k =
      let pointers = (data_block_read s t.disk t.buffer t.inode.indirect).1 in
      let found : ℕ = get32 pointers (4 * k) in
      let (fresh, disk') = data_block_alloc s t.disk in
      if found == 0
      then (if fresh == 0 then record t { actual = 0; disk = disk' } else record t {
        actual = fresh;
        disk = (data_block_write s disk' (put32 pointers (4 * k) fresh) t.inode.indirect).1;
      })
      else record t { actual = found }

  -- The block of the file that `diskfs_inode_write` writes
  unfoldable pub inode_target : Inode → (ℕ → Block) → ℕ → Target
  unfolding direct_target indirect_block pointer_target
  inode_target i disk n =
      if ltb n direct_pointers
      then direct_target i disk n
      else let t = indirect_block i disk in
        if t.actual == 0 then t else pointer_target t (n - direct_pointers)

-- Its last step
unfoldable pub write_target : Superblock → Block → Target → Status × Inode × (ℕ → Block)
unfolding data_block_write
write_target s b t =
    let (status, disk') = data_block_write s t.disk b t.actual in
    if t.actual == 0 then (out_of_space, t.inode, t.disk) else (status, t.inode, disk')

-- `diskfs_inode_write`: the status, the inode in memory and the disk
unfoldable pub inode_write :
    Superblock → Block → ℕ → Inode → (ℕ → Block) → Block → ℕ → Status × Inode × (ℕ → Block)
unfolding inode_target write_target
inode_write s junk inumber i disk b n = write_target s b (inode_target s junk inumber i disk n)
