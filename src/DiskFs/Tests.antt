-- ===== src/DiskFs/Tests.antt =====
-- Runs of `basekernel/kernel/diskfs.c` on small volumes, and the theorems there.
use mathlib.Core.Option
use stage_os.Base.{
  ℕ, zero, suc, ◌+◌, ◌/◌, ◌%◌, ◌<◌, ◌≡◌, ◌≢◌, refl, ap, none, some, [], ◌∷◌, ◌==◌, if◌then◌else◌,
  get_or, arith,
}
use stage_os.DiskFs.Layout.{Block, zero_block, Superblock, ok, block_write}
use stage_os.DiskFs.Bitmap.{
  bit, scan_bits, scan_bytes, data_block_alloc, inumber_alloc, inumber_free,
}
use stage_os.DiskFs.Inode.{inode_write}
use stage_os.DiskFs.Directory.{find_name, dirent_list, put_item, create_file_or_dir}
use stage_os.DiskFs.Removal.{dirent_remove, remove_item, is_full_dir}
use stage_os.DiskFs.Super.{volume_format, format_super, root_inode}
use stage_os.DiskFs.Search.{Outcome, data_block_alloc-Outcome}
use stage_os.DiskFs.Numbering.{data_block_alloc-twice}
use stage_os.DiskFs.Words.{IsInode}
use stage_os.DiskFs.Format.{root_dirent}
use stage_os.DiskFs.Freed.{dirent_remove-frees_directory}

abbrev zeros : ℕ → Block
zeros m = zero_block

-- A volume of eleven data blocks, and one of 40000
abbrev small : Superblock
small = record {
  magic = 0xabcd4321;
  sb_block_size = 4096;
  inode_start = 1;
  inode_blocks = 28;
  bitmap_start = 29;
  bitmap_blocks = 1;
  data_start = 30;
  data_blocks = 11;
}

abbrev large : Superblock
large = record small { bitmap_blocks = 2; data_start = 31; data_blocks = 40000 }

first_number : (data_block_alloc small zeros).0 ≡ 1
unfolding data_block_alloc
first_number = refl

first_inode : (inumber_alloc small zeros).0 ≡ 0
unfolding inumber_alloc
first_inode = refl

frees_an_inode : inumber_free small zero_block (inumber_alloc small zeros).1 0 1 0 ≡ 0
unfolding inumber_alloc inumber_free
frees_an_inode = refl

data_block_alloc-Outcome_example : Outcome small zeros 1 0 (data_block_alloc small zeros)
data_block_alloc-Outcome_example = data_block_alloc-Outcome small zeros

-- The first bitmap block is full.
abbrev full : ℕ → Block
full m p = if m == 29 then 255 else 0

full_bytes : (n j : ℕ) → scan_bytes 40000 (λ p. 255) 0 n j ≡ none
unfolding scan_bytes scan_bits
full_bytes zero j = refl
full_bytes (suc n) j = full_bytes n (j + 1)

data_block_alloc-twice_example :
    ((data_block_alloc large full).0 ≡ 4096) × (bit (full 29 512) 0 ≢ 0)
data_block_alloc-twice_example =
    data_block_alloc-twice large full (omega arith) (omega arith) (full_bytes 4096 0) refl

root-IsInode : IsInode root_inode
root-IsInode = record { pointers = refl; words = omega arith }

abbrev text : Block
text p = b'x'

writes : (inode_write small zero_block 0 root_inode zeros text 2).0 ≡ ok
unfolding inode_write data_block_alloc
writes = refl

-- The item `.`
abbrev dot_block : Block
dot_block p = if p == 4 then 2 else if p == 5 then 1 else if p == 6 then b'.' else 0

dot_bytes : (p : ℕ) → dot_block p < 256
dot_bytes p = ground arith

two_blocks : 1 < (format_super 40).data_blocks
unfolding format_super
two_blocks = omega arith

-- A root directory with the file `a`, whose inode is number 5
abbrev with_file : ℕ → Block
with_file = block_write zeros 31 (put_item zero_block 0 5 1 (b'a' ∷ []))

lists : dirent_list small zero_block with_file root_dirent ≡ b'a' ∷ 0 ∷ []
unfolding dirent_list put_item
lists = refl

removed : (dirent_remove small zero_block with_file root_dirent (b'a' ∷ [])).0 ≡ ok
unfolding dirent_remove remove_item is_full_dir find_name put_item
removed = refl

directory_after : (dirent_remove small zero_block with_file root_dirent (b'a' ∷ [])).1 ≡ root_inode
unfolding dirent_remove remove_item is_full_dir find_name put_item inode_write
directory_after = refl

dirent_remove-frees_directory_example :
    bit
      ((dirent_remove small zero_block with_file root_dirent (b'a' ∷ [])).2 (29 + 0) (
        get_or (dirent_remove small zero_block with_file root_dirent (b'a' ∷ [])).1.direct 0 0 / 8))
      (get_or (dirent_remove small zero_block with_file root_dirent (b'a' ∷ [])).1.direct 0 0 % 8)
    ≡ 0
dirent_remove-frees_directory_example =
    dirent_remove-frees_directory small zero_block with_file root_dirent (b'a' ∷ []) (omega arith)
      (omega arith) removed (omega (arith, ap (λ i. i.size) directory_after))
      (omega (arith, ap (λ i. get_or i.direct 0 0) directory_after))

-- A file is created in the formatted root directory, and found.
creates :
    Option.map
      (λ d. d.inumber)
      (create_file_or_dir small zero_block (volume_format 40 zeros) root_dirent (b'b' ∷ []) 1).0
    ≡ some 1
unfolding create_file_or_dir volume_format
creates = refl
