-- ===== src/HashSet/Laws.antt =====
-- What `hash_set_add` and `hash_set_remove` of `basekernel/kernel/hash_set.c` do to later lookups.
use stage_os.Base.{
  ℕ, ◌<◌, ◌≡◌, ◌≢◌, ◌∙◌, sym, ap, refl, Bool, true, false, none, some, List, [], if◌then◌else◌, set,
  arith, length, inl, inr, Option-cases, get_or-set_self, get_or-set_ne, length-set,
}
use native.Mathlib.Decide.{ℕ_discrete}
use stage_os.HashSet.{
  Node, list_add, list_delete, HashSet, hash_uint, chain, add, content_or, lookup, remove,
}
use stage_os.HashSet.Chain.{
  IsSorted, misplaced, list_add-lookup, list_delete-lookup, list_delete-IsSorted, list_delete-other,
}

-- The set has buckets, a chain for each, and the chains are sorted.
pub record IsValid (s : HashSet) : Type 0 where
  pub buckets : 0 < s.total_buckets
  pub chains : length s.head ≡ s.total_buckets
  pub sorted : (i : ℕ) → IsSorted (chain s i)

-- The chain that a key belongs to
abbrev pub chain_of : HashSet → ℕ → List Node
chain_of s k = chain s (hash_uint k s.total_buckets)

hash_uint-lt : (s : HashSet) (k : ℕ) → IsValid s → hash_uint k s.total_buckets < length s.head
unfolding hash_uint
hash_uint-lt s k v = grind (arith, v.buckets, v.chains)

record Added (s : HashSet) (n : Node) (s' : HashSet) : Type 0 where
  l : List Node
  from : list_add (chain_of s n.key) n ≡ some l
  head_eq : s'.head ≡ set s.head (hash_uint n.key s.total_buckets) l
  total : s'.total_buckets ≡ s.total_buckets

add-Added :
    (s s' : HashSet) (k d : ℕ)
    → add s k d ≡ (s', true)
    → Added s (record { key = k; content = d }) s'
unfolding add
add-Added s s' k d e =
    elim (Option-cases (list_add (chain_of s k) (record { key = k; content = d }))) [
      | inl z ↦ let f = rw (z, add) at e in let g = ap (λ r. r.1) f in cc
      | inr p ↦
          let f = rw (p.1, add) at e in
          record {
            l = p.0;
            from = p.1;
            head_eq = ap (λ r. r.0.head) (sym f);
            total = ap (λ r. r.0.total_buckets) (sym f);
          }
    ]

content-if :
    (k d : ℕ) (b : Bool)
    → content_or (if b then none else some (record { key = k; content = d })) ≡ (if b then 0 else d)
content-if k d true = refl
content-if k d false = refl

-- After a key was added, a lookup finds its data, unless the key lies above the first key of its chain
-- and below a later one: then it is not found.
pub lookup-add :
    (s s' : HashSet) (k d : ℕ)
    → IsValid s
    → add s k d ≡ (s', true)
    → lookup s' k ≡ (if misplaced k (chain_of s k) then 0 else d)
unfolding lookup
lookup-add s s' k d v e =
    let a = add-Added s s' k d e in
    let found = list_add-lookup (record { key = k; content = d }) (chain_of s k) a.l a.from in
    rw
      (
        a.total,
        a.head_eq,
        get_or-set_self s.head (hash_uint k s.total_buckets) a.l [] (hash_uint-lt s k v),
        found,
      )
      (content-if k d (misplaced k (chain_of s k)))

record Removed (s : HashSet) (k : ℕ) (s' : HashSet) : Type 0 where
  l : List Node
  from : list_delete (chain_of s k) k ≡ some l
  head_eq : s'.head ≡ set s.head (hash_uint k s.total_buckets) l
  total : s'.total_buckets ≡ s.total_buckets

remove-Removed : (s s' : HashSet) (k : ℕ) → remove s k ≡ (s', true) → Removed s k s'
unfolding remove
remove-Removed s s' k e = elim (Option-cases (list_delete (chain_of s k) k)) [
  | inl z ↦ let f = rw (z, remove) at e in let g = ap (λ r. r.1) f in cc
  | inr p ↦
      let f = rw (p.1, remove) at e in
      record {
        l = p.0;
        from = p.1;
        head_eq = ap (λ r. r.0.head) (sym f);
        total = ap (λ r. r.0.total_buckets) (sym f);
      }
]

remove-IsValid : (s s' : HashSet) (k : ℕ) → IsValid s → Removed s k s' → IsValid s'
remove-IsValid s s' k v r =
    let at = hash_uint k s.total_buckets in
    record {
      buckets = rw r.total v.buckets;
      chains = rw (r.head_eq, r.total) (length-set s.head at r.l ∙ v.chains);
      sorted = λ i. rw r.head_eq (elim (ℕ_discrete at i) [
        | yes p ↦
            rw (sym p, get_or-set_self s.head at r.l [] (hash_uint-lt s k v))
              (list_delete-IsSorted (chain_of s k) r.l k (v.sorted at) r.from)
        | no ne ↦ rw (get_or-set_ne s.head at i r.l [] ne) (v.sorted i)
      ]);
    }

lookup-other :
    (s s' : HashSet) (k j : ℕ) → IsValid s → Removed s k s' → j ≢ k → lookup s' j ≡ lookup s j
unfolding lookup
lookup-other s s' k j v r ne =
    let at = hash_uint k s.total_buckets in
    let at_j = hash_uint j s.total_buckets in
    rw (r.total, r.head_eq)
      (elim (ℕ_discrete at at_j) [
        | yes p ↦
            rw (sym p, get_or-set_self s.head at r.l [] (hash_uint-lt s k v))
              (ap content_or (list_delete-other (chain_of s k) r.l k j (v.sorted at) r.from ne))
        | no d ↦ rw (get_or-set_ne s.head at at_j r.l [] d) refl
      ])

-- Removing a key that is found from a valid set keeps it valid; the key is not found afterwards, and
-- every other key gives what it gave before.
pub lookup-remove :
    (s s' : HashSet) (k : ℕ)
    → IsValid s
    → remove s k ≡ (s', true)
    → IsValid s' × (lookup s' k ≡ 0) × ((j : ℕ) → j ≢ k → lookup s' j ≡ lookup s j)
unfolding lookup
lookup-remove s s' k v e =
    let r = remove-Removed s s' k e in
    let at = hash_uint k s.total_buckets in
    (
      remove-IsValid s s' k v r,
      rw (r.total, r.head_eq, get_or-set_self s.head at r.l [] (hash_uint-lt s k v))
          (ap content_or (list_delete-lookup (chain_of s k) r.l k (v.sorted at) r.from)),
      λ j ne. lookup-other s s' k j v r ne,
    )
