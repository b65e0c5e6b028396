-- ===== src/Syscalls/Descriptors.antt =====
-- Descriptors under the system calls of `basekernel/kernel/syscall_handler.c`.
use stage_os.Base.{
  ℕ, Option, ◌^◌, ◌<◌, ◌≡◌, ◌≢◌, ◌∙◌, refl, ap, sym, true, false, none, some, ltb, leb, get_or,
  get_elem?, set, length, length-set, get_or-set_self, get_or-set_ne, arith, Bool-cases, inl, inr,
}
use stage_os.KObject
use stage_os.KObject.{Kind, KObject, Store}
use stage_os.KObject.References.{Counted, copy-Counted, close-Counted, copy_place, copy_object}
use stage_os.Process.{max_objects, is_free}
use stage_os.Syscalls.{
  Session, value, error, invalid_object, is_valid_object, with_object, install, object_close,
  copy_to, object_copy,
}

-- A descriptor has an object.
pub record HasObject (s : Session) (fd p : ℕ) (o : KObject) : Type 0 where
  pub slot : get_or s.table fd none ≡ some p
  pub object : get_elem? s.store.objects p ≡ some (some o)
  pub small : fd < max_objects
  pub sized : length s.table ≡ max_objects

pub valid :
    (s : Session) (fd p : ℕ) (o : KObject) → HasObject s fd p o → is_valid_object s fd ≡ true
unfolding is_valid_object
valid s fd p o h =
    let inside : ltb fd 32 ≡ true = ground (arith, h.small) in rw (inside, h.slot, is_free) refl

invalid_of_free :
    (s : Session) (fd : ℕ) → get_or s.table fd none ≡ none → is_valid_object s fd ≡ false
unfolding is_valid_object
invalid_of_free s fd e = elim (Bool-cases (ltb fd 32)) [
  | inl inside ↦ rw (inside, e, is_free) refl
  | inr outside ↦ rw outside refl
]

fault :
    {A : Type 0} (t : Session) (i : ℕ) (f : ℕ → KObject → Option A)
    → get_or t.table i none ≡ none
    → with_object t i f ≡ none
unfolding with_object
fault t i f e = rw (e, with_object) refl

pub with_object_lem :
    {A : Type 0} (s : Session) (fd p : ℕ) (o : KObject) (f : ℕ → KObject → Option A)
    → HasObject s fd p o
    → with_object s fd f ≡ f p o
unfolding with_object
with_object_lem s fd p o f h = rw (h.slot, with_object) (rw (h.object, with_object) refl)

close_free :
    (s : Session) (fd : ℕ)
    → is_valid_object s fd ≡ false
    → object_close fd s ≡ some (error invalid_object, s)
unfolding object_close
close_free s fd e = rw e refl

closed : Session → (fd p : ℕ) → KObject → Session
closed s fd p o = record { table = set s.table fd none; store = KObject.close p o s.store }

close_result :
    (s : Session) (fd p : ℕ) (o : KObject)
    → HasObject s fd p o
    → object_close fd s ≡ some (value 0, closed s fd p o)
unfolding object_close closed
close_result s fd p o h = rw (valid s fd p o h) (with_object_lem s fd p o _ h)

-- A closed slot holds nothing.
closed_slot :
    (s : Session) (fd p : ℕ) (o : KObject)
    → HasObject s fd p o
    → get_or (closed s fd p o).table fd none ≡ none
unfolding closed
closed_slot s fd p o h = get_or-set_self s.table fd none none (omega (arith, h.small, h.sized))

-- `sys_object_close` of a descriptor with an object succeeds, the descriptor is invalid afterwards and
-- every other one as before, and all references stay counted.
pub object_close-Counted :
    (outside : Kind → ℕ → ℕ) (s : Session) (fd p : ℕ) (o : KObject)
    → HasObject s fd p o
    → Counted outside s.store
    → (s' : Session) × (object_close fd s ≡ some (value 0, s'))
      × (is_valid_object s' fd ≡ false)
      × ((i : ℕ) → i ≢ fd → get_or s'.table i none ≡ get_or s.table i none)
      × Counted outside s'.store
unfolding closed
object_close-Counted outside s fd p o h c = (
  closed s fd p o,
  close_result s fd p o h,
  invalid_of_free (closed s fd p o) fd (closed_slot s fd p o h),
  λ i ne. get_or-set_ne s.table fd i none none (λ e. ne (sym e)),
  close-Counted outside p o s.store h.object c,
)

-- `sys_object_copy` of a descriptor onto itself first closes it, and then follows the null pointer that
-- is left in the table.
pub object_copy_self :
    (s : Session) (fd p : ℕ) (o : KObject) → HasObject s fd p o → object_copy fd fd s ≡ none
unfolding object_copy copy_to
object_copy_self s fd p o h =
    let no_sign : leb (2 ^ 31) fd ≡ false = ground (arith, h.small) in
    let in_range : ltb max_objects fd ≡ false = ground (arith, h.small) in
    rw (valid s fd p o h, no_sign, in_range)
      (rw (close_result s fd p o h, copy_to)
        (fault (closed s fd p o) fd _ (closed_slot s fd p o h)))

-- The process after a copy
abbrev pub copied : Session → (dst : ℕ) → KObject → Session
copied s dst o = install s dst (KObject.copy o s.store)

pub copy_result :
    (s : Session) (src dst p : ℕ) (o : KObject)
    → HasObject s src p o
    → dst < max_objects
    → get_or s.table dst none ≡ none
    → object_copy src dst s ≡ some (value src, copied s dst o)
unfolding object_copy copy_to
copy_result s src dst p o h lt free =
    let no_sign : leb (2 ^ 31) dst ≡ false = ground (arith, lt) in
    let in_range : ltb max_objects dst ≡ false = ground (arith, lt) in
    let inside : ltb dst max_objects ≡ true = ground (arith, lt) in
    let not_open : object_close dst s ≡ some (error invalid_object, s) =
      close_free s dst (invalid_of_free s dst free) in
    rw (valid s src p o h, no_sign, in_range)
      (rw (not_open, copy_to) (with_object_lem s src p o _ h ∙ rw inside refl))

pub copied-HasObject :
    (s : Session) (src dst p : ℕ) (o : KObject)
    → HasObject s src p o
    → dst < max_objects
    → HasObject (copied s dst o) dst (length s.store.objects) (record o { refcount = 1 })
copied-HasObject s src dst p o h lt = record {
  slot =
      get_or-set_self s.table dst _ none (omega (arith, lt, h.sized))
      ∙ ap some (copy_place o s.store);
  object =
      ap (get_elem? (KObject.copy o s.store).1.objects) (sym (copy_place o s.store))
      ∙ copy_object o s.store;
  small = lt;
  sized = length-set s.table dst _ ∙ h.sized;
}

-- A copy to a descriptor that is free gives it an object of its own for the same target, with one
-- reference, and counts the new reference; the call returns the number of the source.
pub object_copy-Counted :
    (outside : Kind → ℕ → ℕ) (s : Session) (src dst p : ℕ) (o : KObject)
    → HasObject s src p o
    → dst < max_objects
    → get_or s.table dst none ≡ none
    → Counted outside s.store
    → (s' : Session) × (object_copy src dst s ≡ some (value src, s'))
      × HasObject s' dst (length s.store.objects) (record o { refcount = 1 })
      × ((i : ℕ) → i ≢ dst → get_or s'.table i none ≡ get_or s.table i none)
      × Counted outside s'.store
object_copy-Counted outside s src dst p o h lt free c = (
  copied s dst o,
  copy_result s src dst p o h lt free,
  copied-HasObject s src dst p o h lt,
  λ i ne. get_or-set_ne s.table dst i _ none (λ e. ne (sym e)),
  copy-Counted outside o s.store c,
)
