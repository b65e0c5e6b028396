-- ===== src/LinkedList.antt =====
-- The doubly linked list of `basekernel/kernel/list.c`. A node is named by its address, 0 is the null
-- pointer, and the memory is a function from addresses to nodes. There is one list; `listed` tells that
-- the field `list` of a node points to it. A size and a priority are numbers of type `int`.
pub mod Chain
pub mod Links
pub mod Ends
mod Tests
use stage_os.Base.{
  ℕ, zero, suc, ◌+◌, ◌-◌, Bool, true, false, ◌||◌, not, Option, none, some, List, [], ◌∷◌, ◌==◌,
  ltb, if◌then◌else◌,
}

-- `struct list_node`
pub record Node : Type 0 where
  pub next : ℕ
  pub prev : ℕ
  pub listed : Bool
  pub priority : ℕ

-- `struct list`, and the nodes
pub record Store : Type 0 where
  pub head : ℕ
  pub tail : ℕ
  pub size : ℕ
  pub node : ℕ → Node

abbrev pub update : (ℕ → Node) → ℕ → Node → ℕ → Node
update h n v m = if m == n then v else h m

abbrev set_next : (ℕ → Node) → ℕ → ℕ → ℕ → Node
set_next h n p = update h n (record (h n) { next = p })

abbrev set_prev : (ℕ → Node) → ℕ → ℕ → ℕ → Node
set_prev h n p = update h n (record (h n) { prev = p })

-- `list_push_head`
unfoldable pub list_push_head : Store → ℕ → Store
list_push_head s n =
    let h = update s.node n (record { next = s.head; prev = 0; listed = true; priority = 0 }) in
    record {
      head = n;
      tail = if s.tail == 0 then n else s.tail;
      size = s.size + 1;
      node = if s.head == 0 then h else set_prev h s.head n;
    }

-- `list_push_tail`
unfoldable pub list_push_tail : Store → ℕ → Store
list_push_tail s n =
    let h = update s.node n (record { next = 0; prev = s.tail; listed = true; priority = 0 }) in
    record {
      head = if s.head == 0 then n else s.head;
      tail = n;
      size = s.size + 1;
      node = if s.tail == 0 then h else set_next h s.tail n;
    }

-- A node is put before node `at`.
unfoldable pub insert_before : Store → (n at pri : ℕ) → Store
insert_before s n at pri =
    let before : ℕ = (s.node at).prev in
    let h = update s.node n (record { next = at; prev = before; listed = true; priority = pri }) in
    record s {
      head = if before == 0 then n else s.head;
      size = s.size + 1;
      node = set_prev (if before == 0 then h else set_next h before n) at n;
    }

-- The loop of `list_push_priority` from node `at` on, at step `i`. It goes down the list, which is no
-- longer than its size, and stops behind 5000 nodes.
unfoldable pub priority_loop : Store → (n pri fuel i at : ℕ) → Store
unfolding list_push_tail insert_before
priority_loop s n pri zero i at = list_push_tail s n
priority_loop s n pri (suc fuel) i at =
    let later = priority_loop s n pri fuel (i + 1) (s.node at).next in
    if at == 0
    then list_push_tail s n
    else if ltb (s.node at).priority pri || ltb 5000 i
    then insert_before s n at pri
    else later

-- `list_push_priority`
unfoldable pub list_push_priority : Store → (n pri : ℕ) → Store
unfolding list_push_head priority_loop
list_push_priority s n pri =
    if s.head == 0 then list_push_head s n else priority_loop s n pri s.size 0 s.head

-- A node that was taken out
abbrev pub unlinked : Node → Node
unlinked v = record v { next = 0; prev = 0; listed = false }

-- `list_pop_head`: the node, or the null pointer
unfoldable pub list_pop_head : Store → ℕ × Store
list_pop_head s =
    let rest : ℕ = (s.node s.head).next in
    let h = (if rest == 0 then s.node else set_prev s.node rest 0) in
    if s.head == 0 then (0, s) else (
      s.head,
      record {
        head = rest;
        tail = if rest == 0 then 0 else s.tail;
        size = s.size - 1;
        node = update h s.head (unlinked (h s.head));
      },
    )

-- `list_pop_tail`
unfoldable pub list_pop_tail : Store → ℕ × Store
list_pop_tail s =
    let rest : ℕ = (s.node s.tail).prev in
    let h = (if rest == 0 then s.node else set_next s.node rest 0) in
    if s.tail == 0 then (0, s) else (
      s.tail,
      record {
        head = if rest == 0 then 0 else s.head;
        tail = rest;
        size = s.size - 1;
        node = update h s.tail (unlinked (h s.tail));
      },
    )

-- `list_remove`; `none` is an access through the null pointer. In the middle of a list the field `list`
-- of the node is cleared before the size is counted down through it.
unfoldable pub list_remove : Store → ℕ → Option Store
unfolding list_pop_head list_pop_tail
list_remove s n =
    if not (s.node n).listed
    then some s
    else if s.head == n
    then some (list_pop_head s).1
    else if s.tail == n
    then some (list_pop_tail s).1
    else none

-- `list_size`
abbrev pub list_size : Store → ℕ
list_size s = s.size
