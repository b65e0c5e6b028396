-- ===== src/LinkedList/Tests.antt =====
-- Runs of `basekernel/kernel/list.c`, and the theorems at lists of a few nodes.
use stage_os.Base.{◌≡◌, refl, true, false, some, [], ◌∷◌, arith}
use stage_os.LinkedList.{
  Node, Store, list_push_tail, list_push_priority, list_pop_head, list_pop_tail, list_remove,
  list_size,
}
use stage_os.LinkedList.Chain.{Holds}
use stage_os.LinkedList.Ends.{list_push_tail-Holds}

abbrev blank : Node
blank = record { next = 0; prev = 0; listed = false; priority = 0 }

-- `LIST_INIT`
abbrev empty : Store
empty = record { head = 0; tail = 0; size = 0; node = λ n. blank }

empty-Holds : Holds empty []
empty-Holds = record { nodes = tt; linked = tt; starts = refl; ends = refl; counted = refl }

abbrev three : Store
three = list_push_tail (list_push_tail (list_push_tail empty 7) 8) 9

two-Holds : Holds (list_push_tail (list_push_tail empty 7) 8) (7 ∷ 8 ∷ [])
two-Holds =
    list_push_tail-Holds (list_push_tail empty 7) 8 (7 ∷ [])
      (list_push_tail-Holds empty 7 [] empty-Holds (omega arith) tt) (omega arith) (omega arith, tt)

three-Holds : Holds three (7 ∷ 8 ∷ 9 ∷ [])
three-Holds =
    list_push_tail-Holds (list_push_tail (list_push_tail empty 7) 8) 9 (7 ∷ 8 ∷ []) two-Holds
      (omega arith) (omega arith, (omega arith, tt))

takes_from_both_ends : (list_pop_tail (list_pop_head three).1).0 ≡ 9
unfolding list_push_tail list_pop_head list_pop_tail
takes_from_both_ends = refl

counts : list_size (list_pop_tail (list_pop_head three).1).1 ≡ 1
unfolding list_push_tail list_pop_head list_pop_tail
counts = refl

-- A higher priority goes before a lower one; a node that reaches the tail loses its priority.
goes_first : (list_push_priority (list_push_priority three 4 5) 5 6).head ≡ 5
unfolding list_push_tail list_push_priority
goes_first = refl

loses_its_priority : ((list_push_priority empty 4 5).node 4).priority ≡ 0
unfolding list_push_priority
loses_its_priority = refl

removes_the_first : list_remove three 7 ≡ some (list_pop_head three).1
unfolding list_push_tail list_remove
removes_the_first = refl

eight_listed : (three.node 8).listed ≡ true
unfolding list_push_tail
eight_listed = refl
