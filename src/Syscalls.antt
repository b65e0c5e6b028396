-- ===== src/Syscalls.antt =====
-- The system calls on descriptors of `basekernel/kernel/syscall_handler.c`, for the current process.
-- Pointers of the process are taken as valid, as `is_valid_pointer` does. `none` is a fault of the
-- kernel: a null or dangling pointer, or a write outside of the table.
pub mod Transfer
pub mod Objects
pub mod Descriptors
pub mod Sharing
mod Tests
use stage_os.Base.{
  ℕ, suc, ◌+◌, ◌^◌, Bool, true, false, not, ◌&&◌, Option, none, some, List, [], ◌∷◌, ◌==◌, ltb, leb,
  if◌then◌else◌, get_or, get_elem?, set,
}
use stage_os.KObject
use stage_os.KObject.{Kind, KObject, Store, not_found, done, failed}
use stage_os.Process.{max_objects, is_free, available_fd}

-- The table of the current process, and the objects
pub record Session : Type 0 where
  pub table : List (Option ℕ)
  pub store : Store

-- What a call returns: a number, or the number of an error without its sign
pub data Return : Type 0 where
  value error : ℕ → Return

abbrev pub invalid_object : ℕ
invalid_object = 14

abbrev pub invalid_path : ℕ
invalid_path = 16

abbrev pub out_of_objects : ℕ
out_of_objects = 19

abbrev pub Call : Type 0
Call = Option (Return × Session)

-- `is_valid_object` of is_valid.c; a descriptor is a pattern of 32 bits.
unfoldable pub is_valid_object : Session → ℕ → Bool
is_valid_object s fd = ltb fd max_objects && not (is_free s.table fd)

-- The object of a descriptor, with its place
unfoldable pub with_object : {A : Type 0} → Session → ℕ → (ℕ → KObject → Option A) → Option A
with_object s fd f = elim (get_or s.table fd none) [
  | none ↦ none
  | some p ↦ elim (get_elem? s.store.objects p) [
    | none ↦ none
    | some c ↦ elim c [ none ↦ none | some o ↦ f p o ]
  ]
]

-- An object is put into a slot of the table.
abbrev pub install : Session → ℕ → ℕ × Store → Session
install s fd r = record { table = set s.table fd (some r.0); store = r.1 }

-- `sys_object_close`
unfoldable pub object_close : ℕ → Session → Call
unfolding is_valid_object with_object
object_close fd s =
    if is_valid_object s fd
    then with_object s fd (λ p o.
      some
        (Return.value 0, record { table = set s.table fd none; store = KObject.close p o s.store }))
    else some (Return.error invalid_object, s)

-- The end of `sys_object_copy`, once the destination is chosen
unfoldable pub copy_to : (src dst : ℕ) → Session → Call
unfolding object_close
copy_to src dst s = elim (object_close dst s) [
  | none ↦ none
  | some r ↦ with_object r.1 src (λ p o.
      if ltb dst max_objects
      then some (Return.value src, install r.1 dst (KObject.copy o r.1.store))
      else none)
]

-- `sys_object_copy`
unfoldable pub object_copy : (src dst : ℕ) → Session → Call
unfolding copy_to
object_copy src dst s =
    if is_valid_object s src
    then (if leb (2 ^ 31) dst
        then elim (available_fd s.table) [
          | none ↦ some (Return.error not_found, s)
          | some fd ↦ copy_to src fd s
        ]
        else if ltb max_objects dst
        then some (Return.error invalid_object, s)
        else copy_to src dst s)
    else some (Return.error invalid_object, s)

-- The number of a kind in `kobject_type_t`
abbrev pub kind_number : Kind → ℕ
kind_number Kind.file = 0
kind_number Kind.dir = 1
kind_number Kind.device = 2
kind_number Kind.window = 3
kind_number Kind.pipe = 4
kind_number Kind.console = 5

-- `sys_object_type`
unfoldable pub object_type : ℕ → Session → Call
unfolding is_valid_object with_object
object_type fd s =
    if is_valid_object s fd
    then with_object s fd (λ p o. some (Return.value (kind_number o.kind), s))
    else some (Return.error invalid_object, s)

-- A new descriptor for what a lookup or a creation gives
abbrev pub opened : Session → ℕ → KObject.Result × Option ℕ × Store → Call
opened s newfd r = elim r.0 [
  | failed e ↦ some (Return.error e, record s { store = r.2 })
  | done n ↦ elim r.1 [ none ↦ none | some k ↦ some (Return.value newfd, install s newfd (k, r.2)) ]
]

-- `sys_open_file`, for a path that `is_valid_path` accepts or not; `traverse` is the way of
-- `fs_dirent_traverse` along it.
unfoldable pub open_file :
    (path_valid : Bool) → (traverse : ℕ → Option (ℕ × Bool)) → ℕ → Session → Call
unfolding is_valid_object with_object
open_file path_valid traverse fd s =
    if is_valid_object s fd
    then (if path_valid
        then elim (available_fd s.table) [
          | none ↦ some (Return.error out_of_objects, s)
          | some newfd ↦
              with_object s fd (λ p o. opened s newfd (KObject.lookup o traverse s.store))
        ]
        else some (Return.error invalid_path, s))
    else some (Return.error invalid_object, s)

-- `sys_open_dir`; `create` is the flag to create, and `make` is `fs_dirent_mkdir`.
unfoldable pub open_dir :
    (path_valid create : Bool)
    → (traverse : ℕ → Option (ℕ × Bool)) → (make : ℕ → Option ℕ) → ℕ
    → Session
    → Call
unfolding is_valid_object with_object
open_dir path_valid create traverse make fd s =
    if is_valid_object s fd
    then (if path_valid
        then elim (available_fd s.table) [
          | none ↦ some (Return.error out_of_objects, s)
          | some newfd ↦ with_object s fd (λ p o.
              let r = KObject.create_from_dir Kind.dir o make s.store in
              let made : Call = elim r.0 [
                | none ↦ some (Return.error not_found, record s { store = r.1 })
                | some k ↦ some (Return.value newfd, install s newfd (k, r.1))
              ] in
              if create then made else opened s newfd (KObject.lookup o traverse s.store))
        ]
        else some (Return.error invalid_path, s))
    else some (Return.error invalid_object, s)

-- `sys_open_pipe`; `pipe` is the pipe that `pipe_create` makes, if it does.
unfoldable pub open_pipe : (pipe : Option ℕ) → Session → Call
open_pipe pipe s = elim (available_fd s.table) [
  | none ↦ some (Return.error not_found, s)
  | some fd ↦ elim pipe [
    | none ↦ some (Return.error not_found, s)
    | some p ↦ some (Return.value fd, install s fd (KObject.create Kind.pipe p s.store))
  ]
]
