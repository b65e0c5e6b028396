-- ===== src/Process/Inherit.antt =====
-- What a child process takes over: `process_inherit` of `basekernel/kernel/process.c` on the kernel
-- objects of `basekernel/kernel/kobject.c`.
use stage_os.Base.{
  ℕ, ◌+◌, ◌≤◌, ◌≡◌, Option, none, some, List, [], ◌∷◌, ◌++◌, get_or, get_elem?, drop, length,
}
use stage_os.KObject.{KObject, Store, copy}

-- The object of a descriptor, or `none` where the code would follow a null pointer
abbrev pub object_at : Store → List (Option ℕ) → ℕ → Option KObject
object_at s table fd = elim (get_or table fd none) [
  | none ↦ none
  | some p ↦ elim (get_elem? s.objects p) [ none ↦ none | some o ↦ o ]
]

-- The loop of `process_selective_inherit`: the descriptors of the child, where `none` in the list is a
-- negative number
unfoldable pub copy_fds :
    (parent : List (Option ℕ)) → List (Option ℕ) → Store → Option (List (Option ℕ) × Store)
copy_fds parent [] s = some ([], s)
copy_fds parent (none ∷ fds) s = elim (copy_fds parent fds s) [
  | none ↦ none
  | some r ↦ some (none ∷ r.0, r.1)
]
copy_fds parent (some fd ∷ fds) s = elim (object_at s parent fd) [
  | none ↦ none
  | some o ↦ elim (copy_fds parent fds (copy o s).1) [
    | none ↦ none
    | some r ↦ some (some (copy o s).0 ∷ r.0, r.1)
  ]
]

-- `process_selective_inherit` on the table of the child
unfoldable pub selective_inherit :
    (parent child fds : List (Option ℕ)) → Store → Option (List (Option ℕ) × Store)
unfolding copy_fds
selective_inherit parent child fds s = elim (copy_fds parent fds s) [
  | none ↦ none
  | some r ↦ some (r.0 ++ drop (length fds) child, r.1)
]

-- The loop of `process_inherit`: the descriptors from `i` on that the parent has
unfoldable pub used_fds : (i : ℕ) → List (Option ℕ) → List (Option ℕ)
used_fds i [] = []
used_fds i (none ∷ t) = none ∷ used_fds (i + 1) t
used_fds i (some p ∷ t) = some i ∷ used_fds (i + 1) t

-- `process_inherit`
unfoldable pub inherit : (parent child : List (Option ℕ)) → Store → Option (List (Option ℕ) × Store)
unfolding used_fds selective_inherit
inherit parent child s = selective_inherit parent child (used_fds 0 parent) s

-- Every descriptor in use has an object.
abbrev pub HasObjects : Store → List (Option ℕ) → Type 0
HasObjects s [] = Unit {0}
HasObjects s (none ∷ t) = HasObjects s t
HasObjects s (some p ∷ t) =
    ((o : KObject) × (get_elem? s.objects p ≡ some (some o))) × HasObjects s t

-- The child has an object of its own, with one reference, for each object of the parent.
abbrev pub Copies : (before after : Store) → (parent child : List (Option ℕ)) → Type 0
Copies s s' [] t = t ≡ []
Copies s s' (none ∷ ps) [] = ⊥
Copies s s' (some p ∷ ps) [] = ⊥
Copies s s' (none ∷ ps) (c ∷ cs) = (c ≡ none) × Copies s s' ps cs
Copies s s' (some p ∷ ps) (c ∷ cs) =
    ((o : KObject) × (q : ℕ) × (get_elem? s.objects p ≡ some (some o))
      × (c ≡ some q)
      × (length s.objects ≤ q)
      × (get_elem? s'.objects q ≡ some (some (record o { refcount = 1 }))))
    × Copies s s' ps cs
