-- ===== src/Process.antt =====
-- The process table and the scheduler of `basekernel/kernel/process.c`. A process is known by the
-- number of its structure, a kernel list is the list of its nodes, head first, and the memory and the
-- stacks of a process are left out.
pub mod Pids
pub mod Objects
pub mod Members
pub mod Steps
pub mod Turns
pub mod Inherit
pub mod Copied
mod Tests
use stage_os.Base.{
  ℕ, zero, suc, ◌+◌, ◌-◌, ◌≤◌, Bool, true, false, not, ◌&&◌, ◌||◌, Option, none, some, List, [],
  ◌∷◌, ◌++◌, ◌==◌, ltb, leb, if◌then◌else◌, get_elem?, get_or, set, length,
}

abbrev pub max_objects : ℕ
max_objects = 32

abbrev pub max_pid : ℕ
max_pid = 1024

-- `PROCESS_STATE_...`
pub data State : Type 0 where
  cradle ready running blocked grave : State

-- `struct process`; a descriptor of `ktable` is the number of a kernel object.
pub record Process : Type 0 where
  state : State
  exitcode : ℕ
  exitreason : ℕ
  ktable : List (Option ℕ)
  pid : ℕ
  ppid : ℕ
  waiting_for_child_pid : ℕ

-- The globals of process.c, the static `last` of `process_allocate_pid`, and the structures
pub record Kernel : Type 0 where
  current : Option ℕ
  ready_list : List ℕ
  grave_list : List ℕ
  grave_watcher_list : List ℕ
  process_table : List (Option ℕ)
  last : ℕ
  at : ℕ → Process

-- A pid is free: its slot in the table holds the null pointer.
abbrev pub is_free : List (Option ℕ) → ℕ → Bool
is_free table i = elim (get_or table i none) [ none ↦ true | some p ↦ false ]

-- A loop of `process_allocate_pid`: the first free pid of `n` pids from `i` on
pub first_free : List (Option ℕ) → (n i : ℕ) → Option ℕ
first_free table zero i = none
first_free table (suc n) i =
    let later = first_free table n (i + 1) in if is_free table i then some i else later

-- `process_allocate_pid`: the pid, 0 if there is none, and `last` afterwards
pub allocate_pid : List (Option ℕ) → ℕ → ℕ × ℕ
unfolding first_free
allocate_pid table last = elim (first_free table (max_pid - (last + 1)) (last + 1)) [
  | some i ↦ (i, i)
  | none ↦ elim (first_free table (last - 1) 1) [ some i ↦ (i, i) | none ↦ (0, last) ]
]

-- The loop of `process_available_fd` over the table of the current process, from descriptor `i` on;
-- `none` stands for -1.
pub available_from : List (Option ℕ) → ℕ → Option ℕ
available_from [] i = none
available_from (none ∷ t) i = some i
available_from (some o ∷ t) i = available_from t (i + 1)

-- `process_available_fd`, which does not look at its argument
pub available_fd : List (Option ℕ) → Option ℕ
unfolding available_from
available_fd ktable = available_from ktable 0

-- The loop of `process_object_max`, from descriptor `n - 1` down
pub object_max_below : List (Option ℕ) → ℕ → Option ℕ
object_max_below t zero = none
object_max_below t (suc n) =
    let later = object_max_below t n in if is_free t n then later else some n

-- `process_object_max`
pub object_max : List (Option ℕ) → Option ℕ
unfolding object_max_below
object_max ktable = object_max_below ktable max_objects

-- An assignment to a structure
abbrev pub assign : ℕ → (Process → Process) → (ℕ → Process) → ℕ → Process
assign p f at q = if q == p then f (at q) else at q

-- `process_launch`
pub launch : ℕ → Kernel → Kernel
launch p k = record k { ready_list = k.ready_list ++ (p ∷ []) }

-- The first part of `process_switch` on the current process: it leaves.
pub leave : State → Option ℕ → Kernel → Kernel
leave newstate none k = k
leave ready (some p) k = record k {
  current = none;
  at = assign p (λ q. record q { state = ready }) k.at;
  ready_list = k.ready_list ++ (p ∷ []);
}
leave grave (some p) k = record k {
  current = none;
  at = assign p (λ q. record q { state = grave }) k.at;
  grave_list = k.grave_list ++ (p ∷ []);
}
leave newstate (some p) k = record k {
  current = none;
  at = assign p (λ q. record q { state = newstate }) k.at;
}

-- Its loop on the ready list: the first process runs. With none ready no process is current, and the
-- loop is entered again after the next interrupt.
pub resume : List ℕ → Kernel → Kernel
resume [] k = record k { current = none }
resume (p ∷ ps) k = record k {
  current = some p;
  ready_list = ps;
  at = assign p (λ q. record q { state = running }) k.at;
}

-- `process_switch`
pub switch : State → Kernel → Kernel
unfolding leave resume
switch newstate k = let left = leave newstate k.current k in resume left.ready_list left

-- `process_yield` on the current process
pub yield_from : Option ℕ → Kernel → Kernel
unfolding switch
yield_from none k = k
yield_from (some p) k = switch ready k

-- `process_yield`
pub yield : Kernel → Kernel
unfolding yield_from
yield k = yield_from k.current k

-- `process_preempt` on the ready list, where preemption is allowed
pub preempt_from : List ℕ → Kernel → Kernel
unfolding yield
preempt_from [] k = k
preempt_from (q ∷ qs) k = yield k

-- `process_preempt`
pub preempt : Kernel → Kernel
unfolding preempt_from
preempt k = preempt_from k.ready_list k

-- `list_push_tail` of the current process, which there must be
abbrev pub push_current : List ℕ → Option ℕ → List ℕ
push_current q none = q
push_current q (some p) = q ++ (p ∷ [])

-- `process_wait` on a queue: the queue and the kernel afterwards
pub wait : List ℕ → Kernel → List ℕ × Kernel
unfolding switch
wait q k = (push_current q k.current, switch blocked k)

-- A process that is woken
abbrev pub make_ready : ℕ → Kernel → Kernel
make_ready p k = record k {
  ready_list = k.ready_list ++ (p ∷ []);
  at = assign p (λ q. record q { state = ready }) k.at;
}

-- `process_wakeup` on a queue
pub wakeup : List ℕ → Kernel → List ℕ × Kernel
wakeup [] k = ([], k)
wakeup (p ∷ q) k = (q, make_ready p k)

-- `process_wakeup_all` on a queue, which it empties
pub wakeup_all : List ℕ → Kernel → Kernel
wakeup_all [] k = k
wakeup_all (p ∷ q) k = wakeup_all q (make_ready p k)

-- Whether the process at `p` waits for the end of the current one, `c`
abbrev pub awaits : (ℕ → Process) → ℕ → ℕ → Bool
awaits at c p =
    (at p).pid == (at c).ppid
    && ((at p).waiting_for_child_pid == 0 || (at p).waiting_for_child_pid == (at c).pid)

-- The search of `process_wakeup_parent`: the first such process, and the list without it
pub find_parent : (ℕ → Process) → ℕ → List ℕ → Option (ℕ × List ℕ)
find_parent at c [] = none
find_parent at c (p ∷ q) =
    let later = find_parent at c q in
    if awaits at c p then some (p, q) else elim later [ none ↦ none | some r ↦ some (r.0, p ∷ r.1) ]

-- The parent that was found is woken.
pub wake_found : Option (ℕ × List ℕ) → Kernel → Kernel
wake_found none k = k
wake_found (some r) k = record k {
  grave_watcher_list = r.1;
  ready_list = k.ready_list ++ (r.0 ∷ []);
  at = assign r.0 (λ q. record q { state = ready; waiting_for_child_pid = 0 }) k.at;
}

-- `process_wakeup_parent` on the list of the parents that wait, for the current process `c`
pub wakeup_parent : ℕ → Kernel → Kernel
unfolding find_parent wake_found
wakeup_parent c k = wake_found (find_parent k.at c k.grave_watcher_list) k

-- The assignments of `process_exit`
abbrev pub set_exit : ℕ → ℕ → Kernel → Kernel
set_exit c code k = record k {
  at = assign c (λ q. record q { exitcode = code; exitreason = 0 }) k.at;
}

-- `process_exit` of the current process, `c`
pub exit : ℕ → ℕ → Kernel → Kernel
unfolding wakeup_parent switch
exit c code k = switch grave (wakeup_parent c (set_exit c code k))

-- The search of `process_wait_child` through the dead processes
pub find_dead : (ℕ → Process) → (c pid : ℕ) → List ℕ → Option ℕ
find_dead at c pid [] = none
find_dead at c pid (p ∷ q) =
    let later = find_dead at c pid q in
    if (not (pid == 0) && (at p).pid == pid) || (at p).ppid == (at c).pid then some p else later

-- A round of `process_wait_child` in which no child is dead
pub wait_for_child : ℕ → Option ℕ → Kernel → Kernel
unfolding switch
wait_for_child pid none k = k
wait_for_child pid (some c) k = switch blocked (record k {
  at = assign c (λ q. record q { waiting_for_child_pid = pid }) k.at;
  grave_watcher_list = push_current k.grave_watcher_list (some c);
})
