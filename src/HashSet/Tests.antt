-- ===== src/HashSet/Tests.antt =====
-- The hash set of `basekernel/kernel/hash_set.c` at a set of one bucket.
use stage_os.Base.{ℕ, ◌≡◌, refl, true, [], ◌∷◌, arith, zero, suc, if◌then◌else◌, get_or}
use stage_os.HashSet.{Node, HashSet, hash_uint, add, lookup, remove}
use stage_os.HashSet.Chain.{IsSorted, misplaced, some_above}
use stage_os.HashSet.Laws.{IsValid, chain_of, lookup-add}

abbrev node : ℕ → ℕ → Node
node k d = record { key = k; content = d }

abbrev one_five : HashSet
one_five = record { total_buckets = 1; num_entries = 2; head = (node 1 11 ∷ node 5 55 ∷ []) ∷ [] }

IsSorted-at : (i : ℕ) → IsSorted (get_or one_five.head i [])
IsSorted-at zero = (omega arith, tt)
IsSorted-at (suc i) = tt

one_five-IsValid : IsValid one_five
one_five-IsValid = record { buckets = omega arith; chains = refl; sorted = IsSorted-at }

-- The key 3 comes to stand behind 5, where it is not found.
adds_three : add one_five 3 33 ≡ (
  record one_five { num_entries = 3; head = (node 1 11 ∷ node 5 55 ∷ node 3 33 ∷ []) ∷ [] },
  true,
)
unfolding add
adds_three = refl

three_lost : misplaced 3 (chain_of one_five 3) ≡ true
unfolding misplaced some_above hash_uint
three_lost = refl

lookup-add_example :
    lookup
      (record one_five { num_entries = 3; head = (node 1 11 ∷ node 5 55 ∷ node 3 33 ∷ []) ∷ [] })
      3
    ≡ (if misplaced 3 (chain_of one_five 3) then 0 else 33)
lookup-add_example =
    lookup-add one_five
      (record one_five { num_entries = 3; head = (node 1 11 ∷ node 5 55 ∷ node 3 33 ∷ []) ∷ [] }) 3
      33 one_five-IsValid adds_three

abbrev only_one : HashSet
only_one = record one_five { num_entries = 1; head = (node 1 11 ∷ []) ∷ [] }

removes_five : remove one_five 5 ≡ (only_one, true)
unfolding remove
removes_five = refl
