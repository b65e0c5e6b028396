-- ===== src/Syscalls/Transfer.antt =====
-- The system calls of `basekernel/kernel/syscall_handler.c` that read, write, list and remove through a
-- descriptor. `S` is the state of the files, devices, pipes, windows and consoles.
use stage_os.Base.{ℕ, Bool, Option, some, List, [], set, if◌then◌else◌}
use stage_os.KObject
use stage_os.KObject.{
  KObject, Kind, Operations, Result, done, failed, not_implemented, not_a_directory, list_objects,
  remove_object,
}
use stage_os.Syscalls.{Session, Return, invalid_object, invalid_path, is_valid_object, with_object}

-- What a call returns, the bytes that it puts into the buffer, and the states after it
pub record Answer (S : Type 0) : Type 0 where
  pub result : Return
  pub bytes : List ℕ
  pub session : Session
  pub state : S

-- A refusal changes nothing.
abbrev pub refused : {S : Type 0} → ℕ → Session → S → Option (Answer S)
refused e s st = some (record { result = Return.error e; bytes = []; session = s; state = st })

-- The number that an operation of an object returns
abbrev pub returned : Result → Return
returned (done n) = Return.value n
returned (failed e) = Return.error e

-- The object at `p` has changed.
abbrev pub keep : Session → ℕ → KObject → Session
keep s p k = record s { store = record s.store { objects = set s.store.objects p (some k) } }

module _ {S : Type 0} (ops : Operations S) where
  -- `sys_object_read`
  unfoldable pub object_read : (fd size : ℕ) → (nonblock : Bool) → Session → S → Option (Answer S)
  unfolding is_valid_object with_object
  object_read fd size nonblock s st =
      if is_valid_object s fd
      then with_object s fd (λ p o.
        let r = KObject.read ops o size nonblock st in
        some (record { result = returned r.3; bytes = r.2; session = keep s p r.0; state = r.1 }))
      else refused invalid_object s st

  -- `sys_object_write`
  unfoldable pub object_write :
      (fd : ℕ) → (buffer : List ℕ) → (nonblock post : Bool) → Session → S → Option (Answer S)
  unfolding is_valid_object with_object
  object_write fd b nonblock post s st =
      if is_valid_object s fd
      then with_object s fd (λ p o.
        let r = KObject.write ops o b nonblock post st in
        some (record { result = returned r.2; bytes = []; session = keep s p r.0; state = r.1 }))
      else refused invalid_object s st

  -- `sys_object_list`
  unfoldable pub object_list : (fd size : ℕ) → Session → S → Option (Answer S)
  unfolding is_valid_object with_object
  object_list fd size s st =
      if is_valid_object s fd
      then with_object s fd (λ p o.
        let r = list_objects ops o size st in
        elim o.kind [
          | Kind.dir ↦
              some (record { result = returned r.2; bytes = r.1; session = s; state = r.0 })
          | _ ↦ refused not_a_directory s st
        ])
      else refused invalid_object s st

  -- `sys_object_remove`, for a name that `is_valid_path` accepts or not
  unfoldable pub object_remove :
      (path_valid : Bool) → (fd : ℕ) → (name : List ℕ) → Session → S → Option (Answer S)
  unfolding is_valid_object with_object
  object_remove path_valid fd name s st =
      if is_valid_object s fd
      then (if path_valid
          then with_object s fd (λ p o.
            let r = remove_object ops o name st in
            some (record { result = returned r.1; bytes = []; session = s; state = r.0 }))
          else refused invalid_path s st)
      else refused invalid_object s st

  -- `sys_object_seek`
  unfoldable pub object_seek : (fd : ℕ) → Session → S → Option (Answer S)
  unfolding is_valid_object
  object_seek fd s st =
      if is_valid_object s fd then refused not_implemented s st else refused invalid_object s st
