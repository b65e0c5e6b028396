-- ===== src/Syscalls/Tests.antt =====
-- The calls of `basekernel/kernel/syscall_handler.c` on a process with one object, and the theorems
-- there.
use stage_os.Base.{ℕ, true, ◌≡◌, ◌≢◌, refl, none, some, [], ◌∷◌, get_or, replicate, arith}
use stage_os.KObject.{Kind, KObject}
use stage_os.KObject.References.{Counted, holders}
use stage_os.KObject.Example.{file_operations, file_object}
use stage_os.Syscalls.{
  Return, Session, value, is_valid_object, with_object, object_copy, object_type,
}
use stage_os.Syscalls.Transfer.{Answer, object_read}
use stage_os.Syscalls.Objects.{is_valid_object_type, open_console, open_window}
use stage_os.Syscalls.Sharing.{object_read-copied}
use stage_os.Syscalls.Descriptors.{HasObject, object_copy_self, object_copy-Counted}

abbrev console_object : KObject
console_object = record { kind = Kind.console; target = 7; offset = 0; refcount = 1; tag = none }

-- A process with a console at descriptor 0
abbrev session : Session
session = record {
  table = some 0 ∷ replicate 31 none;
  store = record {
    objects = some console_object ∷ [];
    refs = λ k t. holders k t (some console_object ∷ []);
    flushed = [];
  };
}

type_of_console : object_type 0 session ≡ some (value 5, session)
unfolding object_type is_valid_object with_object
type_of_console = refl

session-HasObject : HasObject session 0 0 console_object
session-HasObject = record { slot = refl; object = refl; small = omega arith; sized = refl }

session-Counted : Counted (λ k t. 0) session.store
session-Counted k t = omega arith

object_copy_self_example : object_copy 0 0 session ≡ none
object_copy_self_example = object_copy_self session 0 0 console_object session-HasObject

object_copy-Counted_example :
    (s' : Session) × (object_copy 0 3 session ≡ some (value 0, s'))
    × HasObject s' 3 1 console_object
    × ((i : ℕ) → i ≢ 3 → get_or s'.table i none ≡ get_or session.table i none)
    × Counted (λ k t. 0) s'.store
object_copy-Counted_example =
    object_copy-Counted (λ k t. 0) session 0 3 0 console_object session-HasObject (omega arith) refl
      session-Counted

-- A process with a file at descriptor 2
abbrev file_session : Session
file_session = record {
  table = none ∷ none ∷ some 0 ∷ replicate 29 none;
  store = record { objects = some file_object ∷ []; refs = λ k t. 1; flushed = [] };
}

file_session-HasObject : HasObject file_session 2 0 file_object
file_session-HasObject = record { slot = refl; object = refl; small = omega arith; sized = refl }

object_read-copied_example :
    (s' : Session) × (a b : Answer (Unit {0})) × (object_copy 2 5 file_session ≡ some (value 2, s'))
    × (object_read file_operations 2 4 true file_session tt ≡ some a)
    × (object_read file_operations 5 4 true s' tt ≡ some b)
    × (b.result ≡ a.result)
    × (b.bytes ≡ a.bytes)
    × (b.state ≡ a.state)
    × HasObject b.session 2 0 file_object
object_read-copied_example =
    object_read-copied file_operations file_session tt 2 5 0 file_object 4 true
      file_session-HasObject (omega arith) refl

-- A console is no window.
no_window : open_window (λ t. some 1) 0 session ≡ some (Return.error 14, session)
unfolding open_window is_valid_object_type is_valid_object with_object
no_window = refl

-- A console cannot be made on a file.
no_console : open_console (λ t. none) 2 file_session ≡ some (Return.error 14, file_session)
unfolding open_console is_valid_object_type is_valid_object with_object
no_console = refl
