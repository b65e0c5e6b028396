-- ===== src/Syscalls/Sharing.antt =====
-- Reading through copied descriptors of `basekernel/kernel/syscall_handler.c`.
use stage_os.Base.{
  ℕ, ◌<◌, ◌≡◌, ◌≢◌, ◌∙◌, refl, Bool, none, some, get_or, length, length-set, get_or-set_ne, arith,
}
use stage_os.KObject
use stage_os.KObject.{KObject, Operations, read}
use stage_os.KObject.References.{
  get_elem?-append_left, get_elem?-lt, get_elem?-set_self, get_elem?-set_ne,
}
use stage_os.Process.{max_objects}
use stage_os.Syscalls.{Session, value, object_copy}
use stage_os.Syscalls.Descriptors.{
  HasObject, valid, with_object_lem, copied, copy_result, copied-HasObject,
}
use stage_os.Syscalls.Transfer.{Answer, returned, keep, object_read}

-- The source keeps its object.
copied_source :
    (s : Session) (src dst p : ℕ) (o : KObject)
    → HasObject s src p o
    → get_or s.table dst none ≡ none
    → HasObject (copied s dst o) src p o
unfolding KObject.copy
copied_source s src dst p o h free = record {
  slot = get_or-set_ne s.table dst src _ none (λ e. cc (e, free, h.slot)) ∙ h.slot;
  object = get_elem?-append_left s.store.objects _ p (some o) h.object;
  small = h.small;
  sized = length-set s.table dst _ ∙ h.sized;
}

keep-HasObject :
    (s : Session) (fd p : ℕ) (o k : KObject) → HasObject s fd p o → HasObject (keep s p k) fd p k
keep-HasObject s fd p o k h = record {
  slot = h.slot;
  object = get_elem?-set_self s.store.objects p (some o) (some k) h.object;
  small = h.small;
  sized = h.sized;
}

keep-HasObject_ne :
    (s : Session) (fd p q : ℕ) (o k : KObject)
    → p ≢ q
    → HasObject s fd q o
    → HasObject (keep s p k) fd q o
keep-HasObject_ne s fd p q o k ne h = record {
  slot = h.slot;
  object = get_elem?-set_ne s.store.objects p q (some k) ne ∙ h.object;
  small = h.small;
  sized = h.sized;
}

module _ {S : Type 0} (ops : Operations S) where
  -- What a read of `n` bytes through an object answers, if it stands at `p`
  abbrev pub answer : Session → (p : ℕ) → KObject → (n : ℕ) → (nonblock : Bool) → S → Answer S
  answer s p o n nonblock st =
      let r = read ops o n nonblock st in
      record { result = returned r.3; bytes = r.2; session = keep s p r.0; state = r.1 }

  read_result :
      (s : Session) (fd p : ℕ) (o : KObject) (n : ℕ) (nonblock : Bool) (st : S)
      → HasObject s fd p o
      → object_read ops fd n nonblock s st ≡ some (answer s p o n nonblock st)
  unfolding object_read
  read_result s fd p o n nonblock st h = rw (valid s fd p o h) (with_object_lem s fd p o _ h)

  -- After a copy to a descriptor that is free, a read through the copy returns what a read through the
  -- source would have returned before, the same bytes and the same state of the rest. The object of the
  -- source keeps its offset: the copy has one of its own.
  pub object_read-copied :
      (s : Session) (st : S) (src dst p : ℕ) (o : KObject) (n : ℕ) (nonblock : Bool)
      → HasObject s src p o
      → dst < max_objects
      → get_or s.table dst none ≡ none
      → (s' : Session) × (a b : Answer S) × (object_copy src dst s ≡ some (value src, s'))
        × (object_read ops src n nonblock s st ≡ some a)
        × (object_read ops dst n nonblock s' st ≡ some b)
        × (b.result ≡ a.result)
        × (b.bytes ≡ a.bytes)
        × (b.state ≡ a.state)
        × HasObject b.session src p o
  unfolding read
  object_read-copied s st src dst p o n nonblock h lt free =
      let s' : Session = copied s dst o in
      let q : ℕ = length s.store.objects in
      let o' : KObject = record o { refcount = 1 } in
      (
        s',
        answer s p o n nonblock st,
        answer s' q o' n nonblock st,
        copy_result s src dst p o h lt free,
        read_result s src p o n nonblock st h,
        read_result s' dst q o' n nonblock st (copied-HasObject s src dst p o h lt),
        refl,
        refl,
        refl,
        keep-HasObject_ne s' src q p o (read ops o' n nonblock st).0
            (λ e. omega (arith, e, get_elem?-lt s.store.objects p (some o) h.object))
            (copied_source s src dst p o h free),
      )
