-- ===== src/DiskFs/Directory.antt =====
-- The directory entries of `basekernel/kernel/diskfs.c`. A name is its bytes without the zero byte. The
-- references to an entry are counted by the layer above, and are left out here.
use stage_os.Base.{
  ℕ, zero, suc, ◌+◌, ◌*◌, ◌/◌, ◌%◌, Bool, true, false, ◌&&◌, not, Option, none, some, List, [], ◌∷◌,
  ◌++◌, ◌==◌, ltb, if◌then◌else◌, length, replicate,
}
use stage_os.Strings.{strncmp, Sign}
use stage_os.DiskFs.Layout.{
  Block, zero_block, block_size, put8, get32, put32, get_bytes, put_bytes, item_bytes,
  items_per_block, Superblock, Inode,
}
use stage_os.DiskFs.Inode.{inode_load, inode_save, inode_read, inode_write}
use stage_os.DiskFs.Bitmap.{inumber_alloc}

-- `b->items[j]`: `inumber`, `type`, `name_length` and the bytes of the name
abbrev pub item_inumber : Block → ℕ → ℕ
item_inumber b j = get32 b (item_bytes * j)

abbrev pub item_type : Block → ℕ → ℕ
item_type b j = b (item_bytes * j + 4)

unfoldable pub item_name : Block → ℕ → List ℕ
unfolding get_bytes
item_name b j = get_bytes b (item_bytes * j + 6) (b (item_bytes * j + 5))

-- An item is filled in: three fields and the bytes of the name.
unfoldable pub put_item : Block → (j inumber type : ℕ) → List ℕ → Block
unfolding put_bytes
put_item b j inumber type name =
    put_bytes
      (put8 (put8 (put32 b (item_bytes * j) inumber) (item_bytes * j + 4) type) (item_bytes * j + 5)
        (length name))
      (item_bytes * j + 6) name

-- The types of an item
abbrev pub blank_item : ℕ
blank_item = 0

abbrev pub file_item : ℕ
file_item = 1

abbrev pub dir_item : ℕ
dir_item = 2

-- `DISKFS_NAME_MAX`
abbrev pub name_max : ℕ
name_max = 26

-- `struct fs_dirent` of a disk volume
pub record Dirent : Type 0 where
  pub size : ℕ
  pub inumber : ℕ
  pub isdir : Bool
  pub inode : Inode

-- The result of `strncmp` is 0.
abbrev pub is_equal : Option Sign → Bool
is_equal (some Sign.equal) = true
is_equal (some Sign.minus) = false
is_equal (some Sign.plus) = false
is_equal none = false

-- `diskfs_name_equals`
unfoldable pub name_equals : List ℕ → List ℕ → Bool
unfolding strncmp
name_equals a b = (length a == length b) && is_equal (strncmp a b (length a))

-- The number of blocks of a directory
abbrev pub blocks_of : ℕ → ℕ
blocks_of size = if size % block_size == 0 then size / block_size else size / block_size + 1

-- The inner loop of `diskfs_dirent_lookup`, over `n` items from item `j` on
unfoldable pub find_item : List ℕ → Block → (n j : ℕ) → Option ℕ
unfolding item_name name_equals
find_item name b zero j = none
find_item name b (suc n) j =
    let later = find_item name b n (j + 1) in
    if not (item_type b j == blank_item) && name_equals name (item_name b j) then some j else later

-- The outer loop, over `n` blocks from block `i` on: the block number, the item and the buffer. The
-- buffer `b` keeps what it holds where a read is refused.
unfoldable pub find_name :
    Superblock → (ℕ → Block) → Inode → List ℕ → Block → (n i : ℕ) → Option (ℕ × ℕ × Block)
unfolding find_item inode_read
find_name s disk d name b zero i = none
find_name s disk d name b (suc n) i =
    let b' = (inode_read s disk d b i).1 in
    let later = find_name s disk d name b' n (i + 1) in
    elim (find_item name b' items_per_block 0) [ none ↦ later | some j ↦ some (i, j, b') ]

-- `diskfs_dirent_create`
unfoldable pub dirent_create : Superblock → Block → (ℕ → Block) → (inumber type : ℕ) → Dirent
unfolding inode_load
dirent_create s junk disk inumber type =
    let i = inode_load s junk disk inumber in
    record { size = i.size; inumber = inumber; isdir = type == dir_item; inode = i }

-- `diskfs_dirent_lookup`
unfoldable pub dirent_lookup : Superblock → Block → (ℕ → Block) → Dirent → List ℕ → Option Dirent
unfolding find_name dirent_create
dirent_lookup s junk disk d name = elim (find_name s disk d.inode name junk (blocks_of d.size) 0) [
  | none ↦ none
  | some r ↦ some (dirent_create s junk disk (item_inumber r.2 r.1) (item_type r.2 r.1))
]

-- `diskfs_dirent_list`: the names it writes, each with a zero byte. The length of the buffer is not
-- looked at.
unfoldable pub list_items : Block → (n j : ℕ) → List ℕ
unfolding item_name
list_items b zero j = []
list_items b (suc n) j =
    let later = list_items b n (j + 1) in
    if item_type b j == file_item
    then item_name b j ++ (0 ∷ later)
    else if item_type b j == dir_item
    then item_name b j ++ (0 ∷ later)
    else later

unfoldable pub list_blocks : Superblock → (ℕ → Block) → Inode → Block → (n i : ℕ) → List ℕ
unfolding list_items inode_read
list_blocks s disk d b zero i = []
list_blocks s disk d b (suc n) i =
    let b' = (inode_read s disk d b i).1 in
    list_items b' items_per_block 0 ++ list_blocks s disk d b' n (i + 1)

unfoldable pub dirent_list : Superblock → Block → (ℕ → Block) → Dirent → List ℕ
unfolding list_blocks
dirent_list s junk disk d = list_blocks s disk d.inode junk (blocks_of d.size) 0

-- `diskfs_dirent_close` saves the inode.
unfoldable pub dirent_close : Superblock → Block → (ℕ → Block) → Dirent → ℕ → Block
unfolding inode_save
dirent_close s junk disk d = inode_save s junk disk d.inumber d.inode

-- `diskfs_dirent_resize`
abbrev pub dirent_resize : Dirent → ℕ → Dirent
dirent_resize d size = let i = d.inode in record d { size = size; inode = record i { size = size } }

-- The inner loop of `diskfs_dirent_add`
unfoldable pub find_blank : Block → (n j : ℕ) → Option ℕ
find_blank b zero j = none
find_blank b (suc n) j =
    let later = find_blank b n (j + 1) in if item_type b j == blank_item then some j else later

-- Its outer loop: the block number, the item and the buffer, or the buffer after the last block
unfoldable pub find_space :
    Superblock → (ℕ → Block) → Inode → Block → (n i : ℕ) → Option (ℕ × ℕ × Block)
unfolding find_blank inode_read
find_space s disk d b zero i = none
find_space s disk d b (suc n) i =
    let b' = (inode_read s disk d b i).1 in
    let later = find_space s disk d b' n (i + 1) in
    elim (find_blank b' items_per_block 0) [ none ↦ later | some j ↦ some (i, j, b') ]

-- An item is written into a block of the directory; the status of the write is not looked at.
unfoldable pub write_item :
    Superblock → Block → (ℕ → Block) → Dirent → ℕ → Block → Dirent × (ℕ → Block)
unfolding inode_write
write_item s junk disk d i b =
    let r = inode_write s junk d.inumber d.inode disk b i in (record d { inode = r.1 }, r.2)

-- The size grows where the item lies behind the end.
unfoldable pub grow : Superblock → Block → (Dirent × (ℕ → Block)) → ℕ → Dirent × (ℕ → Block)
unfolding inode_save
grow s junk r newsize =
    let d = dirent_resize r.0 newsize in
    if ltb r.0.size newsize then (d, inode_save s junk r.1 d.inumber d.inode) else r

-- `diskfs_dirent_add`
unfoldable pub dirent_add :
    Superblock → Block → (ℕ → Block) → Dirent → List ℕ → (type inumber : ℕ) → Dirent × (ℕ → Block)
unfolding find_space write_item grow put_item inode_save
dirent_add s junk disk d name type inumber =
    elim (find_space s disk d.inode junk (blocks_of d.size) 0) [
      | some r ↦
          grow s junk (write_item s junk disk d r.0 (put_item r.2 r.1 inumber type name))
            (r.0 * block_size + (r.1 + 1) * item_bytes)
      | none ↦
          let w =
            write_item s junk disk (dirent_resize d (d.size + item_bytes)) (blocks_of d.size)
              (put_item zero_block 0 inumber type name) in
          (w.0, inode_save s junk w.1 w.0.inumber w.0.inode)
    ]

-- An inode in use with no block
abbrev pub fresh_inode : Inode
fresh_inode = record { inuse = 1; size = 0; direct = replicate 6 0; indirect = 0 }

-- `diskfs_dirent_create_file_or_dir`: the new entry, the directory and the disk
unfoldable pub create_file_or_dir :
    Superblock → Block → (ℕ → Block) → Dirent → List ℕ → ℕ → Option Dirent × Dirent × (ℕ → Block)
unfolding dirent_lookup dirent_close inumber_alloc inode_save dirent_add dirent_create
create_file_or_dir s junk disk d name type =
    let (n, disk1) = inumber_alloc s disk in
    let r = dirent_add s junk (inode_save s junk disk1 n fresh_inode) d name type n in
    let made : Option Dirent × Dirent × (ℕ → Block) =
      (if n == 0 then (none, d, disk1) else (some (dirent_create s junk r.1 n type), r.0, r.1)) in
    if ltb name_max (length name)
    then (none, d, disk)
    else elim (dirent_lookup s junk disk d name) [
      | some t ↦ (none, d, dirent_close s junk disk t)
      | none ↦ made
    ]
