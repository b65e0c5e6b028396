-- ===== src/Syscalls/Objects.antt =====
-- The system calls of `basekernel/kernel/syscall_handler.c` on windows, tags and sizes.
use stage_os.Base.{ℕ, Bool, false, Option, none, some, List, [], set, if◌then◌else◌}
use stage_os.KObject
use stage_os.KObject.{
  Kind, KObject, Operations, invalid_request, same_kind, create_from_window, set_tag,
}
use stage_os.Process.{available_fd, object_max}
use stage_os.Syscalls.{
  Session, Return, Call, invalid_object, out_of_objects, is_valid_object, with_object, install,
}
use stage_os.Syscalls.Transfer.{Answer, refused}

-- `is_valid_object_type` of is_valid.c
unfoldable pub is_valid_object_type : Session → ℕ → Kind → Option Bool
unfolding is_valid_object with_object
is_valid_object_type s fd kind =
    if is_valid_object s fd
    then with_object s fd (λ p o. some (same_kind o.kind kind))
    else some false

-- `sys_open_console`: a console that cannot be made leaves a null pointer in the table.
unfoldable pub open_console : (make : ℕ → Option ℕ) → ℕ → Session → Call
unfolding is_valid_object_type with_object
open_console make wd s = elim (is_valid_object_type s wd Kind.window) [
  | none ↦ none
  | some is_window ↦
      if is_window
      then elim (available_fd s.table) [
        | none ↦ some (Return.error out_of_objects, s)
        | some fd ↦ with_object s wd (λ p o.
            let r = create_from_window Kind.console o make s.store in
            some (Return.value fd, record { table = set s.table fd r.0; store = r.1 }))
      ]
      else some (Return.error invalid_object, s)
]

-- `sys_open_window`; `make` is `window_create` for the place and the size that are asked for.
unfoldable pub open_window : (make : ℕ → Option ℕ) → ℕ → Session → Call
unfolding is_valid_object_type with_object
open_window make wd s = elim (is_valid_object_type s wd Kind.window) [
  | none ↦ none
  | some is_window ↦
      if is_window
      then elim (available_fd s.table) [
        | none ↦ some (Return.error out_of_objects, s)
        | some fd ↦ with_object s wd (λ p o.
            let r = create_from_window Kind.window o make s.store in
            elim r.0 [
              | none ↦ some (Return.error invalid_request, record s { store = r.1 })
              | some k ↦ some (Return.value fd, install s fd (k, r.1))
            ])
      ]
      else some (Return.error invalid_object, s)
]

-- `sys_object_set_tag`
unfoldable pub object_set_tag : ℕ → (tag : List ℕ) → Session → Call
unfolding is_valid_object with_object
object_set_tag fd tag s =
    if is_valid_object s fd
    then with_object s fd
        (λ p o. some (Return.value 0, record s { store = set_tag p o tag s.store }))
    else some (Return.error invalid_object, s)

-- `sys_object_max`: the result is `none` for -1, where no descriptor is in use.
unfoldable pub max_descriptor : Session → Option ℕ
max_descriptor s = object_max s.table

module _ {S : Type 0} (ops : Operations S) where
  -- `sys_object_get_tag` with `kobject_get_tag`
  unfoldable pub object_get_tag : ℕ → Session → S → Option (Answer S)
  unfolding is_valid_object with_object
  object_get_tag fd s st =
      if is_valid_object s fd
      then with_object s fd (λ p o. elim o.tag [
        | none ↦ some (record { result = Return.value 0; bytes = []; session = s; state = st })
        | some t ↦ some (record { result = Return.value 1; bytes = t; session = s; state = st })
      ])
      else refused invalid_object s st

  -- `sys_object_size`; the dimensions stand as numbers in place of bytes.
  unfoldable pub object_size : (fd n : ℕ) → Session → S → Option (Answer S)
  unfolding is_valid_object with_object
  object_size fd n s st =
      if is_valid_object s fd
      then with_object s fd (λ p o. elim (KObject.size ops o n st) [
        | none ↦ refused invalid_request s st
        | some d ↦ some (record { result = Return.value 0; bytes = d; session = s; state = st })
      ])
      else refused invalid_object s st
