-- ===== src/LinkedList/Ends.antt =====
-- `basekernel/kernel/list.c` at the two ends of a list: the operations on its sequence of nodes.
use stage_os.Base.{
  ℕ, suc, ◌+◌, ◌≡◌, ◌≢◌, refl, ap, sym, ◌∙◌, subst, true, false, none, List, [], ◌∷◌, ◌++◌, ◌==◌,
  length, length-append, ==-refl, ==-ne, arith,
}
use stage_os.LinkedList.{
  Node, Store, update, list_push_head, list_push_tail, list_pop_head, list_remove,
}
use stage_os.LinkedList.Links.{Linked-set_prev, Linked-snoc, last-nz, AreNodes-snoc, last-snoc}
use stage_os.LinkedList.Chain.{NotIn, AreNodes, first, last, Linked, Holds, Linked-update}

-- A store that holds a list is known but for its memory.
abbrev store : List ℕ → (ℕ → Node) → Store
store xs h = record { head = first xs; tail = last 0 xs; size = length xs; node = h }

Holds-store : (s : Store) (xs : List ℕ) → Holds s xs → s ≡ store xs s.node
Holds-store s xs held =
    λ i. record { head = held.starts i; tail = held.ends i; size = held.counted i; node = s.node }

push_head_store :
    (h : ℕ → Node) (n : ℕ) (xs : List ℕ)
    → AreNodes xs
    → Linked h 0 0 xs
    → n ≢ 0
    → NotIn n xs
    → Holds (list_push_head (store xs h) n) (n ∷ xs)
unfolding list_push_head
push_head_store h n [] nodes l nz out = record {
  nodes = (nz, tt, tt);
  linked = rw (==-refl n) (refl, refl, refl);
  starts = refl;
  ends = refl;
  counted = refl;
}
push_head_store h n (x ∷ xs) nodes l nz out =
    subst (λ s. Holds s (n ∷ x ∷ xs)) (sym result)
      (record {
        nodes = (nz, out, nodes);
        linked = (
          rw (other, ==-refl n) refl,
          rw (other, ==-refl n) refl,
          rw (other, ==-refl n) refl,
          Linked-set_prev h1 0 0 n x xs nodes.1 (Linked-update h n new 0 0 (x ∷ xs) out l),
        );
        starts = refl;
        ends = refl;
        counted = refl;
      })
  where
    new : Node
    new = record { next = x; prev = 0; listed = true; priority = 0 }

    h1 : ℕ → Node
    h1 = update h n new

    other : (n == x) ≡ false
    other = ==-ne n x out.0

    result :
        list_push_head (store (x ∷ xs) h) n
        ≡ store (n ∷ x ∷ xs) (update h1 x (record (h1 x) { prev = n }))
    result =
        rw (==-ne x 0 nodes.0, ==-ne (last x xs) 0 (last-nz x xs nodes), list_push_head)
          (ap
            (λ k. record {
              head = n;
              tail = last x xs;
              size = k;
              node = update h1 x (record (h1 x) { prev = n });
            })
            (omega arith))

-- `list_push_head` puts a node that is not in the list before the others.
pub list_push_head-Holds :
    (s : Store) (n : ℕ) (xs : List ℕ)
    → Holds s xs
    → n ≢ 0
    → NotIn n xs
    → Holds (list_push_head s n) (n ∷ xs)
list_push_head-Holds s n xs held nz out =
    subst (λ s. Holds (list_push_head s n) (n ∷ xs)) (sym (Holds-store s xs held))
      (push_head_store s.node n xs held.nodes held.linked nz out)

abbrev pub rest : List ℕ → List ℕ
rest [] = []
rest (x ∷ xs) = xs

pop_head_store :
    (h : ℕ → Node) (xs : List ℕ)
    → AreNodes xs
    → Linked h 0 0 xs
    → ((list_pop_head (store xs h)).0 ≡ first xs) × Holds (list_pop_head (store xs h)).1 (rest xs)
unfolding list_pop_head
pop_head_store h [] nodes l =
    (refl, record { nodes = tt; linked = tt; starts = refl; ends = refl; counted = refl })
pop_head_store h (x ∷ []) nodes l =
    let some_node : (x == 0) ≡ false = ==-ne x 0 nodes.0 in
    (
      rw some_node refl,
      rw (some_node, l.1)
          (record { nodes = tt; linked = tt; starts = refl; ends = refl; counted = omega arith }),
    )
pop_head_store h (x ∷ y ∷ xs) nodes l =
    let some_node : (x == 0) ≡ false = ==-ne x 0 nodes.0 in
    let more : (y == 0) ≡ false = ==-ne y 0 nodes.2.0 in
    (
      rw some_node refl,
      rw (some_node, l.1, more)
          (record {
            nodes = nodes.2;
            linked =
                Linked-update (update h y (record (h y) { prev = 0 })) x _ 0 0 (y ∷ xs) nodes.1
                  (Linked-set_prev h x 0 0 y xs nodes.2.1 l.3);
            starts = refl;
            ends = refl;
            counted = omega arith;
          }),
    )

-- `list_pop_head` gives the first node, or the null pointer, and leaves the other nodes in order.
pub list_pop_head-Holds :
    (s : Store) (xs : List ℕ)
    → Holds s xs
    → ((list_pop_head s).0 ≡ first xs) × Holds (list_pop_head s).1 (rest xs)
list_pop_head-Holds s xs held =
    subst (λ s. ((list_pop_head s).0 ≡ first xs) × Holds (list_pop_head s).1 (rest xs))
      (sym (Holds-store s xs held)) (pop_head_store s.node xs held.nodes held.linked)

push_tail_store :
    (h : ℕ → Node) (n : ℕ) (xs : List ℕ)
    → AreNodes xs
    → Linked h 0 0 xs
    → n ≢ 0
    → NotIn n xs
    → Holds (list_push_tail (store xs h) n) (xs ++ n ∷ [])
unfolding list_push_tail
push_tail_store h n [] nodes l nz out = record {
  nodes = (nz, tt, tt);
  linked = rw (==-refl n) (refl, refl, refl);
  starts = refl;
  ends = refl;
  counted = refl;
}
push_tail_store h n (x ∷ xs) nodes l nz out =
    subst (λ s. Holds s (x ∷ xs ++ n ∷ [])) (sym result)
      (record {
        nodes = AreNodes-snoc n (x ∷ xs) nodes nz out;
        linked =
            Linked-snoc h1 0 n x xs nodes out (Linked-update h n new 0 0 (x ∷ xs) out l)
              (rw (==-refl n) refl) (rw (==-refl n) refl) (rw (==-refl n) refl);
        starts = refl;
        ends = sym (last-snoc 0 n (x ∷ xs));
        counted = omega (arith, length-append xs (n ∷ []));
      })
  where
    new : Node
    new = record { next = 0; prev = last x xs; listed = true; priority = 0 }

    h1 : ℕ → Node
    h1 = update h n new

    result : list_push_tail (store (x ∷ xs) h) n ≡ record {
      head = x;
      tail = n;
      size = suc (length xs) + 1;
      node = update h1 (last x xs) (record (h1 (last x xs)) { next = n });
    }
    result = rw (==-ne x 0 nodes.0, ==-ne (last x xs) 0 (last-nz x xs nodes), list_push_tail) refl

-- `list_push_tail` puts a node that is not in the list behind the others.
pub list_push_tail-Holds :
    (s : Store) (n : ℕ) (xs : List ℕ)
    → Holds s xs
    → n ≢ 0
    → NotIn n xs
    → Holds (list_push_tail s n) (xs ++ n ∷ [])
list_push_tail-Holds s n xs held nz out =
    subst (λ s. Holds (list_push_tail s n) (xs ++ n ∷ [])) (sym (Holds-store s xs held))
      (push_tail_store s.node n xs held.nodes held.linked nz out)

-- `list_remove` of a node in the middle of a list goes through the null pointer.
pub list_remove_middle :
    (s : Store) (xs : List ℕ) (n : ℕ)
    → Holds s xs
    → (s.node n).listed ≡ true
    → n ≢ first xs
    → n ≢ last 0 xs
    → list_remove s n ≡ none
unfolding list_remove
list_remove_middle s xs n held there after before =
    let no_head : (s.head == n) ≡ false = ==-ne s.head n (λ e. after (sym e ∙ held.starts)) in
    let no_tail : (s.tail == n) ≡ false = ==-ne s.tail n (λ e. before (sym e ∙ held.ends)) in
    rw (there, no_head, no_tail, list_remove) refl
