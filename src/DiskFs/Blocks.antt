-- ===== src/DiskFs/Blocks.antt =====
-- Inodes and blocks of files of `basekernel/kernel/diskfs.c`: what is saved is loaded again, and what is
-- written is read again.
use stage_os.Base.{
  ℕ, ◌+◌, ◌*◌, ◌/◌, ◌%◌, ◌<◌, ◌≡◌, ◌≢◌, inl, inr, refl, sym, ap, ◌∙◌, false, ◌==◌, leb,
  if◌then◌else◌, length, get_or, ==-refl, lt→ltb, Bool-cases, get_or-set_self, arith,
}
use stage_os.DiskFs.Layout.{
  Block, Superblock, Inode, ok, out_of_space, get_inode, put_inode, block_write, inodes_per_block,
}
use stage_os.DiskFs.Words.{IsInode, get_inode-put_inode, get_inode-put_inode_ne}
use stage_os.DiskFs.Inode.{
  inode_load, inode_save, Target, direct_target, inode_target, write_target, inode_write,
  inode_read, data_block_read,
}
use stage_os.DiskFs.Bitmap.{data_block_alloc}

-- Both find their inode in one block, where the number is in range.
pub inode_load_lem :
    (s : Superblock) (junk : Block) (disk : ℕ → Block) (n : ℕ)
    → n < s.inode_blocks * inodes_per_block
    → inode_load s junk disk n ≡ get_inode (disk (s.inode_start + n / 113)) (n % 113)
unfolding inode_load
inode_load_lem s junk disk n h =
    let inside : leb s.inode_blocks (n / 113) ≡ false = ground arith in rw (inside, inode_load) refl

inode_save_lem :
    (s : Superblock) (junk : Block) (disk : ℕ → Block) (n : ℕ) (i : Inode)
    → n < s.inode_blocks * inodes_per_block
    → inode_save s junk disk n i
      ≡ block_write disk
          (s.inode_start + n / 113)
          (put_inode (disk (s.inode_start + n / 113)) (n % 113) i)
unfolding inode_save
inode_save_lem s junk disk n i h =
    let inside : leb s.inode_blocks (n / 113) ≡ false = ground arith in rw (inside, inode_save) refl

-- `diskfs_inode_load` after `diskfs_inode_save` with a number below the count of inodes gives the inode
-- that was saved; any other inode with a number below the count is as before.
pub inode_load-inode_save :
    (s : Superblock) (junk : Block) (disk : ℕ → Block) (n m : ℕ) (i : Inode)
    → IsInode i
    → n < s.inode_blocks * inodes_per_block
    → m < s.inode_blocks * inodes_per_block
    → inode_load s junk (inode_save s junk disk n i) m
      ≡ (if m == n then i else inode_load s junk disk m)
inode_load-inode_save s junk disk n m i h nlt mlt =
    inode_load_lem s junk (inode_save s junk disk n i) m mlt
    ∙ ap (λ d. get_inode (d (s.inode_start + m / 113)) (m % 113))
        (inode_save_lem s junk disk n i nlt)
    ∙ elim (Bool-cases (s.inode_start + m / 113 == s.inode_start + n / 113)) [
      | inl e ↦ elim (Bool-cases (m == n)) [
        | inl same ↦
            let here : m ≡ n = ground arith in
            rw (e, same, here) (get_inode-put_inode (disk (s.inode_start + n / 113)) (n % 113) i h)
        | inr differ ↦
            let block : m / 113 ≡ n / 113 = ground arith in
            let place : n % 113 ≢ m % 113 = ground arith in
            rw (e, differ)
              (get_inode-put_inode_ne (disk (s.inode_start + n / 113)) (n % 113) (m % 113) i place
                ∙ ap (λ q. get_inode (disk (s.inode_start + q)) (m % 113)) (sym block)
                ∙ sym (inode_load_lem s junk disk m mlt))
      ]
      | inr e ↦
          let differ : (m == n) ≡ false = ground arith in
          rw (e, differ) (sym (inode_load_lem s junk disk m mlt))
    ]

-- The block that a direct write finds is the one that the inode names afterwards.
direct_target-names :
    (s : Superblock) (junk : Block) (inumber : ℕ) (i : Inode) (disk : ℕ → Block) (n : ℕ)
    → n < 6
    → length i.direct ≡ 6
    → (direct_target s junk inumber i disk n).actual ≢ 0
    → get_or (direct_target s junk inumber i disk n).inode.direct n 0
      ≡ (direct_target s junk inumber i disk n).actual
unfolding direct_target
direct_target-names s junk inumber i disk n lt six nz =
    elim (Bool-cases (get_or i.direct n 0 == 0)) [
      | inr e ↦ rw (e, direct_target) refl
      | inl e ↦ elim (Bool-cases ((data_block_alloc s disk).0 == 0)) [
        | inl full ↦ absurd (nz (rw (e, full, direct_target) refl))
        | inr fresh ↦
            rw (e, fresh, direct_target)
              (get_or-set_self i.direct n (data_block_alloc s disk).0 0 (omega (arith, six)))
      ]
    ]

-- A write that succeeds wrote the block, and nothing else.
write_target-ok :
    (s : Superblock) (b : Block) (t : Target)
    → (write_target s b t).0 ≡ ok
    → (t.actual ≢ 0)
      × (t.actual < s.data_blocks)
      × (write_target s b t ≡ (ok, t.inode, block_write t.disk (s.data_start + t.actual) b))
unfolding write_target
write_target-ok s b t done = elim (Bool-cases (t.actual == 0)) [
  | inl e ↦ let bad : out_of_space ≡ ok = rw (e, write_target) at done in cc
  | inr e ↦ elim (Bool-cases (leb s.data_blocks t.actual)) [
    | inl out ↦ let bad : out_of_space ≡ ok = rw (e, out, write_target) at done in cc
    | inr inside ↦ (ground arith, ground arith, rw (e, inside, write_target) refl)
  ]
]

read_back :
    (s : Superblock) (t : Target) (b c : Block)
    → t.actual < s.data_blocks
    → data_block_read s (block_write t.disk (s.data_start + t.actual) b) c t.actual ≡ (ok, b)
unfolding data_block_read
read_back s t b c h =
    let inside : leb s.data_blocks t.actual ≡ false = ground arith in
    rw (inside, ==-refl (s.data_start + t.actual), data_block_read) refl

-- `diskfs_inode_read` after a `diskfs_inode_write` of a direct block that succeeds reads what was
-- written, whatever the buffer holds.
pub inode_read-inode_write :
    (s : Superblock) (junk : Block) (inumber : ℕ) (i : Inode) (disk : ℕ → Block) (b c : Block)
    (n : ℕ)
    → n < 6
    → length i.direct ≡ 6
    → (inode_write s junk inumber i disk b n).0 ≡ ok
    → inode_read s
        (inode_write s junk inumber i disk b n).2
        (inode_write s junk inumber i disk b n).1
        c
        n
      ≡ (ok, b)
unfolding inode_read inode_write
inode_read-inode_write s junk inumber i disk b c n lt six done =
    let found : inode_target s junk inumber i disk n ≡ direct_target s junk inumber i disk n =
      rw (lt→ltb n 6 lt, inode_target) refl in
    let t = direct_target s junk inumber i disk n in
    let w = write_target-ok s b t (rw (found, inode_write) at done) in
    rw (found, inode_write)
      (rw (w.2, lt→ltb n 6 lt, inode_read)
        (rw (direct_target-names s junk inumber i disk n lt six w.0) (read_back s t b c w.1)))
