-- ===== src/KObject.antt =====
-- `basekernel/kernel/kobject.c`: kernel objects, through which processes reach files, devices, windows,
-- consoles and pipes. The objects are cells of a heap, and a count is kept of the references to what
-- they stand for; reading and writing are functions on the state of the kernel, a parameter.
pub mod References
pub mod Sequence
pub mod Example
mod Tests
use stage_os.Base.{
  ℕ, suc, ◌+◌, ◌-◌, ◌/◌, Bool, true, false, Option, none, some, List, [], ◌∷◌, ◌++◌, ◌==◌, ltb,
  if◌then◌else◌, get_or, set, length,
}

-- `kobject_type_t`
pub data Kind : Type 0 where
  file dir device window pipe console : Kind

-- `struct kobject`; `target` is what the union `data` points to.
pub record KObject : Type 0 where
  pub kind : Kind
  pub target : ℕ
  pub offset : ℕ
  pub refcount : ℕ
  pub tag : Option (List ℕ)

-- What an operation returns: a count, or the number of an error of `kernel/error.h` without its sign
pub data Result : Type 0 where
  done : ℕ → Result
  failed : ℕ → Result

abbrev pub not_found : ℕ
not_found = 1

abbrev pub invalid_request : ℕ
invalid_request = 2

abbrev pub not_implemented : ℕ
not_implemented = 4

abbrev pub not_a_directory : ℕ
not_a_directory = 7

-- The heap of objects, where `none` is a cell that was freed, and the counts of references to the
-- targets of each kind. Flushes of pipes are recorded.
pub record Store : Type 0 where
  pub objects : List (Option KObject)
  pub refs : Kind → ℕ → ℕ
  pub flushed : List ℕ

-- Files and directories are both counted by `struct fs_dirent`.
abbrev pub same_kind : Kind → Kind → Bool
same_kind file file = true
same_kind file dir = true
same_kind dir file = true
same_kind dir dir = true
same_kind device device = true
same_kind window window = true
same_kind pipe pipe = true
same_kind console console = true
same_kind a b = false

-- A count of references changes at one target.
abbrev pub count_at : Kind → ℕ → (ℕ → ℕ) → (Kind → ℕ → ℕ) → Kind → ℕ → ℕ
count_at k t f refs k' t' =
    if same_kind k k' then (if t == t' then f (refs k' t') else refs k' t') else refs k' t'

-- `kobject_create_file` and the functions like it: the object takes over the reference of its maker.
unfoldable pub create : Kind → ℕ → Store → ℕ × Store
create k t s = (
  length s.objects,
  record s {
    objects =
        s.objects
        ++ some (record { kind = k; target = t; offset = 0; refcount = 1; tag = none }) ∷ [];
  },
)

-- `kobject_addref`
unfoldable pub addref : ℕ → KObject → Store → Store
addref p k s = record s {
  objects = set s.objects p (some (record k { refcount = k.refcount + 1 }));
}

-- `kobject_copy`
unfoldable pub copy : KObject → Store → ℕ × Store
copy k s = (
  length s.objects,
  record s {
    objects = s.objects ++ some (record k { refcount = 1 }) ∷ [];
    refs = count_at k.kind k.target suc s.refs;
  },
)

-- The last branch of `kobject_close`: a pipe is flushed if two references are left or more.
abbrev pub flush_shared : KObject → ℕ → List ℕ → List ℕ
flush_shared k left l = elim k.kind [ pipe ↦ if ltb 1 left then k.target ∷ l else l | _ ↦ l ]

-- `kobject_close`
unfoldable pub close : ℕ → KObject → Store → Store
close p k s =
    let left = k.refcount - 1 in
    if left == 0
    then record s {
      objects = set s.objects p none;
      refs = count_at k.kind k.target (λ n. n - 1) s.refs;
    }
    else record s {
      objects = set s.objects p (some (record k { refcount = left }));
      flushed = flush_shared k left s.flushed;
    }

-- `kobject_lookup`, with `fs_dirent_traverse` and `fs_dirent_isdir` as `traverse`: the result, and the
-- new object where something was found
unfoldable pub lookup :
    KObject → (traverse : ℕ → Option (ℕ × Bool)) → Store → Result × Option ℕ × Store
unfolding create
lookup k traverse s = elim k.kind [
  | dir ↦ elim (traverse k.target) [
    | none ↦ (failed not_found, none, s)
    | some d ↦ let r = create (if d.1 then dir else file) d.0 s in (done 0, some r.0, r.1)
  ]
  | _ ↦ (failed not_implemented, none, s)
]

-- `kobject_create_file_from_dir` and `kobject_create_dir_from_dir`, with `fs_dirent_mkfile` or
-- `fs_dirent_mkdir` as `make`
unfoldable pub create_from_dir :
    (kind : Kind) → KObject → (make : ℕ → Option ℕ) → Store → Option ℕ × Store
unfolding create
create_from_dir kind k make s = elim k.kind [
  | dir ↦ elim (make k.target) [
    | none ↦ (none, s)
    | some d ↦ let r = create kind d s in (some r.0, r.1)
  ]
  | _ ↦ (none, s)
]

-- `kobject_create_window_from_window` and `kobject_create_console_from_window`, with `window_create` or
-- `console_create` as `make`
unfoldable pub create_from_window :
    (kind : Kind) → KObject → (make : ℕ → Option ℕ) → Store → Option ℕ × Store
unfolding create
create_from_window kind k make s = elim k.kind [
  | window ↦ elim (make k.target) [
    | none ↦ (none, s)
    | some w ↦ let r = create kind w s in (some r.0, r.1)
  ]
  | _ ↦ (none, s)
]

-- `kobject_set_tag`
abbrev pub set_tag : ℕ → KObject → (new_tag : List ℕ) → Store → Store
set_tag p k new_tag s = record s {
  objects = set s.objects p (some (record k { tag = some new_tag }));
}

-- A read of `size` bytes or blocks, and a write: the state, the bytes and what the call returns
abbrev pub Reader : Type 0 → Type 0
Reader S = S → (target size : ℕ) → S × List ℕ × Result

abbrev pub Writer : Type 0 → Type 0
Writer S = S → (target : ℕ) → List ℕ → S × Result

-- The functions that kobject.c calls
pub record Operations (S : Type 0) : Type 0 where
  pub dirent_read : (offset : ℕ) → Reader S
  pub dirent_write : (offset : ℕ) → Writer S
  pub dirent_size : S → ℕ → ℕ
  pub dirent_list : Reader S
  pub dirent_remove : Writer S
  pub device_read : (nonblock : Bool) → Reader S
  pub device_write : (blocks : ℕ) → Writer S
  pub device_block_size : S → ℕ → ℕ
  pub device_nblocks : S → ℕ → ℕ
  pub pipe_read : (nonblock : Bool) → Reader S
  pub pipe_write : (nonblock : Bool) → Writer S
  pub pipe_size : S → ℕ → ℕ
  pub window_read_events : (nonblock : Bool) → Reader S
  pub window_write : (post : Bool) → Writer S
  pub window_size : S → ℕ → ℕ × ℕ
  pub console_read : (nonblock : Bool) → Reader S
  pub console_write : (post : Bool) → Writer S
  pub console_size : S → ℕ → ℕ × ℕ

-- A count that is positive is added to the offset.
abbrev pub advanced : KObject → Result → KObject
advanced k (done n) = record k { offset = k.offset + n }
advanced k (failed e) = k

module _ {S : Type 0} (ops : Operations S) where
  -- The `switch` of `kobject_read`
  unfoldable pub read_target :
      Kind → (t offset size : ℕ) → (nonblock : Bool) → S → S × List ℕ × Result
  read_target file t offset size nonblock s = ops.dirent_read offset s t size
  read_target dir t offset size nonblock s = (s, [], failed invalid_request)
  read_target device t offset size nonblock s =
      ops.device_read nonblock s t (size / ops.device_block_size s t)
  read_target pipe t offset size nonblock s = ops.pipe_read nonblock s t size
  read_target window t offset size nonblock s = ops.window_read_events nonblock s t size
  read_target console t offset size nonblock s = ops.console_read nonblock s t size

  -- `kobject_read`
  unfoldable pub read : KObject → (size : ℕ) → (nonblock : Bool) → S → KObject × S × List ℕ × Result
  unfolding read_target
  read k size nonblock s =
      let r = read_target k.kind k.target k.offset size nonblock s in
      (advanced k r.2, r.0, r.1, r.2)

  -- The `switch` of `kobject_write`
  unfoldable pub write_kind :
      Kind → KObject → List ℕ → (nonblock post : Bool) → S → KObject × S × Result
  write_kind file k b nonblock post s =
      let r = ops.dirent_write k.offset s k.target b in (advanced k r.1, r.0, r.1)
  write_kind dir k b nonblock post s = (k, s, done 0)
  write_kind device k b nonblock post s =
      let r = ops.device_write (length b / ops.device_block_size s k.target) s k.target b in
      (k, r.0, r.1)
  write_kind pipe k b nonblock post s =
      let r = ops.pipe_write nonblock s k.target b in (k, r.0, r.1)
  write_kind window k b nonblock post s =
      let r = ops.window_write post s k.target b in (k, r.0, r.1)
  write_kind console k b nonblock post s =
      let r = ops.console_write post s k.target b in (k, r.0, r.1)

  -- `kobject_write`
  unfoldable pub write : KObject → List ℕ → (nonblock post : Bool) → S → KObject × S × Result
  unfolding write_kind
  write k b nonblock post s = write_kind k.kind k b nonblock post s

  -- `kobject_list` and `kobject_remove`
  unfoldable pub list_objects : KObject → (size : ℕ) → S → S × List ℕ × Result
  list_objects k size s = elim k.kind [
    | dir ↦ ops.dirent_list s k.target size
    | _ ↦ (s, [], failed not_a_directory)
  ]

  unfoldable pub remove_object : KObject → (name : List ℕ) → S → S × Result
  remove_object k name s = elim k.kind [
    | dir ↦ ops.dirent_remove s k.target name
    | _ ↦ (s, failed not_implemented)
  ]

  -- The dimensions that `kobject_size` knows of each kind
  unfoldable pub dimensions : Kind → S → ℕ → List ℕ
  dimensions file s t = ops.dirent_size s t ∷ []
  dimensions dir s t = ops.dirent_size s t ∷ []
  dimensions device s t = ops.device_nblocks s t ∷ ops.device_block_size s t ∷ []
  dimensions pipe s t = ops.pipe_size s t ∷ []
  dimensions window s t = (ops.window_size s t).0 ∷ (ops.window_size s t).1 ∷ []
  dimensions console s t = (ops.console_size s t).0 ∷ (ops.console_size s t).1 ∷ []

  -- `kobject_size` for `n` dimensions: them, or an error
  unfoldable pub size : KObject → (n : ℕ) → S → Option (List ℕ)
  unfolding dimensions
  size k n s = let d = dimensions k.kind s k.target in if n == length d then some d else none
