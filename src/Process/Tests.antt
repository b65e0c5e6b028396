-- ===== src/Process/Tests.antt =====
-- The scheduler of `basekernel/kernel/process.c` with three processes.
use stage_os.Base.{
  Option, List, ℕ, ◌-◌, ◌≡◌, ◌≢◌, ◌≤◌, ◌<◌, ◌⊎◌, refl, false, none, some, [], ◌∷◌, arith, replicate,
}
use stage_os.Process.{
  max_pid, ready, Process, Kernel, is_free, allocate_pid, yield, exit, find_dead,
}
use stage_os.Process.Pids.{Given, allocate_pid-Given}
use stage_os.Process.Members.{places}
use stage_os.Process.Steps.{Step, Steps, Steps-places}
use stage_os.KObject.{Kind, KObject, Store}
use stage_os.KObject.References.{Counted, holders}
use stage_os.Process.Inherit.{inherit, Copies}
use stage_os.Process.Copied.{inherit-Copies}
use stage_os.Process.Turns.{turns, Runs, Steps-Runs}

abbrev idle : Process
idle = record {
  state = ready;
  exitcode = 0;
  exitreason = 0;
  ktable = replicate 32 none;
  pid = 1;
  ppid = 1;
  waiting_for_child_pid = 0;
}

abbrev three : Kernel
three = record {
  current = some 100;
  ready_list = 101 ∷ 102 ∷ [];
  grave_list = [];
  grave_watcher_list = [];
  process_table = none ∷ some 100 ∷ some 101 ∷ some 102 ∷ [];
  last = 3;
  at = λ p. record idle { pid = p - 99 };
}

yield_rotates : (yield three).ready_list ≡ 102 ∷ 100 ∷ []
unfolding yield
yield_rotates = refl

-- The search for the dead child 9 of process 1 gives its dead child 2.
other_child : find_dead (λ p. record idle { pid = p - 99 }) 100 9 (101 ∷ []) ≡ some 101
unfolding find_dead
other_child = refl

allocate_pid-Given_example :
    Given three.process_table 3 (allocate_pid three.process_table 3)
    ⊎ ((allocate_pid three.process_table 3 ≡ (0, 3))
        × ((i : ℕ) → 1 ≤ i → i < max_pid → i ≢ 3 → is_free three.process_table i ≡ false))
allocate_pid-Given_example = allocate_pid-Given three.process_table 3 (omega arith)

abbrev objects : List (Option ℕ)
objects = some 7 ∷ none ∷ []

runs : (yield three).current ≡ some 101
unfolding yield
runs = refl

Steps-places_example : places 101 (5 ∷ []) (exit 101 0 (yield three)) ≡ places 101 (5 ∷ []) three
Steps-places_example = Steps-places 101 (5 ∷ []) three (5 ∷ []) (exit 101 0 (yield three)) (
    Steps.next (5 ∷ []) three (5 ∷ []) (yield three) (5 ∷ []) (exit 101 0 (yield three))
      (Step.yields (5 ∷ []) three)
      (Steps.next (5 ∷ []) (yield three) (5 ∷ []) (exit 101 0 (yield three)) (5 ∷ [])
        (exit 101 0 (yield three)) (Step.exits (5 ∷ []) (yield three) 101 0 runs)
        (Steps.done (5 ∷ []) (exit 101 0 (yield three)))))

two_yields : Steps [] three [] (yield (yield three))
two_yields = Steps.next [] three [] (yield three) [] (yield (yield three)) (Step.yields [] three) (
    Steps.next [] (yield three) [] (yield (yield three)) [] (yield (yield three))
      (Step.yields [] (yield three)) (Steps.done [] (yield (yield three))))

two_turns : turns two_yields ≡ 2
unfolding turns two_yields yield
two_turns = refl

Steps-Runs_example : Runs 102 two_yields
Steps-Runs_example =
    Steps-Runs 102 (101 ∷ []) [] [] three [] (yield (yield three)) two_yields refl
      (omega (arith, two_turns))

-- A parent with a console at descriptor 1
abbrev console_object : KObject
console_object = record { kind = Kind.console; target = 7; offset = 0; refcount = 1; tag = none }

abbrev one_object : Store
one_object = record {
  objects = some console_object ∷ [];
  refs = λ k t. holders k t (some console_object ∷ []);
  flushed = [];
}

abbrev parent_table : List (Option ℕ)
parent_table = none ∷ some 0 ∷ none ∷ []

one_object-Counted : Counted (λ k t. 0) one_object
one_object-Counted k t = omega arith

inherit-Copies_example :
    (table : List (Option ℕ)) × (s' : Store) × (inherit parent_table
        (some 4 ∷ none ∷ none ∷ [])
        one_object
      ≡ some (table, s'))
    × Counted (λ k t. 0) s'
    × Copies one_object s' parent_table table
inherit-Copies_example =
    inherit-Copies (λ k t. 0) parent_table (some 4 ∷ none ∷ none ∷ []) one_object
      ((console_object, refl), tt) one_object-Counted refl
