-- ===== src/HashSet.antt =====
-- The hash set of `basekernel/kernel/hash_set.c`: buckets of chains that are meant to be sorted by
-- their keys. A chain is the list of its nodes; keys are 32-bit words.
pub mod Chain
pub mod Laws
mod Tests
use stage_os.Base.{
  ℕ, zero, suc, ◌+◌, ◌-◌, ◌*◌, ◌%◌, ◌^◌, Bool, true, false, Option, none, some, List, [], ◌∷◌, ◌==◌,
  ltb, if◌then◌else◌, get_or, set, replicate,
}

abbrev pub word : ℕ
word = 2 ^ 32

-- `struct hash_set_node`
pub record Node : Type 0 where
  key : ℕ
  content : ℕ

-- The second half of `hash_set_list_add`, past the nodes of smaller keys: `curr` is the first node of
-- the chain that is left, and there was one before it.
pub add_behind : Node → List Node → Option (List Node)
add_behind n [] = some (n ∷ [])
add_behind n (curr ∷ rest) =
    let later = add_behind n rest in
    if ltb curr.key n.key
    then elim later [ none ↦ none | some l ↦ some (curr ∷ l) ]
    else if curr.key == n.key
    then none
    else some (curr ∷ n ∷ rest)

-- `hash_set_list_add`: the chain afterwards, or `none` where it returns -1
pub list_add : List Node → Node → Option (List Node)
unfolding add_behind
list_add [] n = some (n ∷ [])
list_add (curr ∷ rest) n =
    if ltb curr.key n.key
    then elim (add_behind n rest) [ none ↦ none | some l ↦ some (curr ∷ l) ]
    else if curr.key == n.key
    then none
    else some (n ∷ curr ∷ rest)

-- `hash_set_list_lookup`
pub list_lookup : List Node → ℕ → Option Node
list_lookup [] k = none
list_lookup (curr ∷ rest) k =
    let later = list_lookup rest k in
    if ltb curr.key k then later else if curr.key == k then some curr else none

-- `hash_set_list_delete`: the chain afterwards, or `none` where it returns -1
pub list_delete : List Node → ℕ → Option (List Node)
list_delete [] k = none
list_delete (curr ∷ rest) k =
    let later = list_delete rest k in
    if ltb curr.key k
    then elim later [ none ↦ none | some l ↦ some (curr ∷ l) ]
    else if curr.key == k
    then some rest
    else none

-- `struct hash_set`; its heads are the chains.
pub record HashSet : Type 0 where
  total_buckets : ℕ
  num_entries : ℕ
  head : List (List Node)

-- `hash_set_create`, where memory is not short
pub create : ℕ → HashSet
create buckets = record { total_buckets = buckets; num_entries = 0; head = replicate buckets [] }

-- `hash_uint`, of a set that has buckets
pub hash_uint : ℕ → ℕ → ℕ
hash_uint k buckets = k * 0x61C88647 % word % buckets

abbrev pub chain : HashSet → ℕ → List Node
chain s i = get_or s.head i []

-- `hash_set_add`: the set afterwards, and whether it returns 0
pub add : HashSet → ℕ → ℕ → HashSet × Bool
unfolding hash_uint list_add
add s k d =
    let i = hash_uint k s.total_buckets in
    elim (list_add (chain s i) (record { key = k; content = d })) [
      | none ↦ (s, false)
      | some l ↦
          (record s { num_entries = (s.num_entries + 1) % word; head = set s.head i l }, true)
    ]

abbrev pub content_or : Option Node → ℕ
content_or none = 0
content_or (some n) = n.content

-- `hash_set_lookup`: the data found, or the null pointer
pub lookup : HashSet → ℕ → ℕ
unfolding hash_uint list_lookup
lookup s k = content_or (list_lookup (chain s (hash_uint k s.total_buckets)) k)

-- `hash_set_remove`: the set afterwards, and whether it returns 0
pub remove : HashSet → ℕ → HashSet × Bool
unfolding hash_uint list_delete
remove s k =
    let i = hash_uint k s.total_buckets in
    elim (list_delete (chain s i) k) [
      | none ↦ (s, false)
      | some l ↦ (
        record s { num_entries = (s.num_entries + word - 1) % word; head = set s.head i l },
        true,
      )
    ]
