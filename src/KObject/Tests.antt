-- ===== src/KObject/Tests.antt =====
-- Runs of `basekernel/kernel/kobject.c` on two objects, and the theorems there.
use stage_os.Base.{◌≡◌, refl, true, none, some, [], ◌∷◌, ◌++◌, arith}
use stage_os.KObject.{Kind, KObject, Store, read, copy, size}
use stage_os.KObject.Example.{content, block, file_operations, file_object}
use stage_os.KObject.References.{Counted, holders}
use stage_os.KObject.Sequence.{FileOf, read-twice}

abbrev console_object : KObject
console_object = record { kind = Kind.console; target = 7; offset = 0; refcount = 1; tag = none }

-- One object for console 7
abbrev one : Store
one = record {
  objects = some console_object ∷ [];
  refs = λ k t. holders k t (some console_object ∷ []);
  flushed = [];
}

one-Counted : Counted (λ k t. 0) one
one-Counted k t = omega arith

-- A copy counts a second reference to the console, and closing the first gives it back.
copies : ((copy console_object one).1).refs Kind.console 7 ≡ 2
unfolding copy holders
copies = refl

file_object-FileOf : FileOf file_operations file_object tt 4 10 content
file_object-FileOf = record {
  is_file = refl;
  block = block;
  block_bytes = omega arith;
  blocks = λ i lt. refl;
  reads = λ offset n. refl;
}

sizes : size file_operations file_object 2 tt ≡ none
unfolding size
sizes = refl

read-twice_example :
    (read file_operations file_object 3 true tt).2
      ++ (read file_operations (read file_operations file_object 3 true tt).0 9 true tt).2
    ≡ (read file_operations file_object 12 true tt).2
read-twice_example =
    (read-twice file_operations file_object tt 4 10 content 3 9 file_object-FileOf (omega arith)).0
