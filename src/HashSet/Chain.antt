-- ===== src/HashSet/Chain.antt =====
-- What the operations of `basekernel/kernel/hash_set.c` do to one chain and to the set.
use stage_os.Base.{
  ℕ, ◌<◌, ◌≤◌, ◌≡◌, ◌≢◌, refl, Bool, false, ◌&&◌, ◌||◌, none, some, List, [], ◌∷◌, ltb,
  if◌then◌else◌, arith, ◌⊎◌, inl, inr, Bool-cases, Option-cases, ==-ne, ge→ltb,
}
use stage_os.HashSet.{Node, add_behind, list_add, list_lookup, list_delete}

-- Every key of the chain is above `b`, and the keys ascend.
abbrev pub Above : ℕ → List Node → Type 0
Above b [] = Unit {0}
Above b (n ∷ l) = (b < n.key) × Above n.key l

abbrev pub IsSorted : List Node → Type 0
IsSorted [] = Unit {0}
IsSorted (n ∷ l) = Above n.key l

Above-weaken : (a b : ℕ) (l : List Node) → a ≤ b → Above b l → Above a l
Above-weaken a b [] h s = tt
Above-weaken a b (n ∷ l) h s = (omega (arith, s.0), s.1)

lookup-Above : (k : ℕ) (l : List Node) → Above k l → list_lookup l k ≡ none
unfolding list_lookup
lookup-Above k [] s = refl
lookup-Above k (n ∷ l) s =
    rw (ge→ltb n.key k (omega (arith, s.0)), ==-ne n.key k (omega (arith, s.0)))

Above-IsSorted : (b : ℕ) (l : List Node) → Above b l → IsSorted l
Above-IsSorted b [] s = tt
Above-IsSorted b (n ∷ l) s = s.1

-- Deleting a key from a sorted chain leaves no node of that key.
pub list_delete-lookup :
    (l l' : List Node) (k : ℕ) → IsSorted l → list_delete l k ≡ some l' → list_lookup l' k ≡ none
unfolding list_delete list_lookup
list_delete-lookup [] l' k s e = cc
list_delete-lookup (c ∷ r) l' k s e = elim (Option-cases (list_delete r k)) [
  | inl z ↦ ground (arith, lookup-Above k r, Above-weaken k c.key r)
  | inr p ↦ ground (
    arith,
    lookup-Above k r,
    Above-weaken k c.key r,
    list_delete-lookup r p.0 k (Above-IsSorted c.key r s) p.1,
  )
]

-- Whether a key of the chain is above `k`.
unfoldable pub some_above : ℕ → List Node → Bool
some_above k [] = false
some_above k (n ∷ l) = ltb k n.key || some_above k l

-- Whether `k` lies above the first key of the chain and below another one.
unfoldable pub misplaced : ℕ → List Node → Bool
misplaced k [] = false
misplaced k (n ∷ l) = ltb n.key k && some_above k l

add_behind-lookup :
    (n : Node) (l l' : List Node)
    → add_behind n l ≡ some l'
    → list_lookup l' n.key ≡ (if some_above n.key l then none else some n)
unfolding add_behind list_lookup some_above
add_behind-lookup n [] l' e = ground arith
add_behind-lookup n (c ∷ r) l' e = elim (Option-cases (add_behind n r)) [
  | inl z ↦ ground arith
  | inr p ↦ ground (arith, add_behind-lookup n r p.0 p.1)
]

-- A chain finds the node that was added last unless it was misplaced.
pub list_add-lookup :
    (n : Node) (l l' : List Node)
    → list_add l n ≡ some l'
    → list_lookup l' n.key ≡ (if misplaced n.key l then none else some n)
unfolding list_add list_lookup misplaced
list_add-lookup n [] l' e = ground arith
list_add-lookup n (c ∷ r) l' e = elim (Option-cases (add_behind n r)) [
  | inl z ↦ ground arith
  | inr p ↦ ground (arith, add_behind-lookup n r p.0 p.1)
]

-- A deletion is of the first node or of a later one.
list_delete-cases :
    (c : Node) (r l' : List Node) (k : ℕ)
    → list_delete (c ∷ r) k ≡ some l'
    → (l' ≡ r) ⊎ ((l : List Node) × (list_delete r k ≡ some l) × (l' ≡ c ∷ l))
unfolding list_delete
list_delete-cases c r l' k e = elim (Option-cases (list_delete r k)) [
  | inl z ↦ inl (ground arith)
  | inr p ↦ elim (Bool-cases (ltb c.key k)) [
    | inl lt ↦ inr (p.0, p.1, ground arith)
    | inr ge ↦ inl (ground arith)
  ]
]

list_delete-Above :
    (b : ℕ) (l l' : List Node) (k : ℕ) → Above b l → list_delete l k ≡ some l' → Above b l'
unfolding list_delete
list_delete-Above b [] l' k s e = cc
list_delete-Above b (c ∷ r) l' k s e = elim (list_delete-cases c r l' k e) [
  | inl z ↦ rw z (Above-weaken b c.key r (omega (arith, s.0)) s.1)
  | inr p ↦ rw p.2 (s.0, list_delete-Above c.key r p.0 k s.1 p.1)
]

-- Deleting from a sorted chain leaves it sorted.
pub list_delete-IsSorted :
    (l l' : List Node) (k : ℕ) → IsSorted l → list_delete l k ≡ some l' → IsSorted l'
unfolding list_delete
list_delete-IsSorted [] l' k s e = cc
list_delete-IsSorted (c ∷ r) l' k s e = elim (list_delete-cases c r l' k e) [
  | inl z ↦ rw z (Above-IsSorted c.key r s)
  | inr p ↦ rw p.2 (list_delete-Above c.key r p.0 k s p.1)
]

-- Deleting a key from a sorted chain does not change what is found for another one.
pub list_delete-other :
    (l l' : List Node) (k j : ℕ)
    → IsSorted l
    → list_delete l k ≡ some l'
    → j ≢ k
    → list_lookup l' j ≡ list_lookup l j
unfolding list_delete list_lookup
list_delete-other [] l' k j s e ne = cc
list_delete-other (c ∷ r) l' k j s e ne = elim (Option-cases (list_delete r k)) [
  | inl z ↦ ground (arith, lookup-Above j r, Above-weaken j c.key r)
  | inr p ↦ ground (
    arith,
    lookup-Above j r,
    Above-weaken j c.key r,
    list_delete-other r p.0 k j (Above-IsSorted c.key r s) p.1 ne,
  )
]
