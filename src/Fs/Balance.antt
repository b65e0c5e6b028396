-- ===== src/Fs/Balance.antt =====
-- The references that `fs_dirent_traverse` of `basekernel/kernel/fs.c` leaves behind.
use stage_os.Base.{
  ℕ, suc, ◌≤◌, ◌<◌, ◌≡◌, ◌∙◌, refl, sym, subst, true, false, Option, none, some, List, [], ◌∷◌,
  ◌==◌, if◌then◌else◌, arith, Bool-cases, Option-cases, ==-refl, ◌⊎◌, inl, inr,
}
use stage_os.Fs.Traverse.{Dirents, is_dot, dirent_addref, dirent_close, made, lookup, walk}

-- No word of a path is ".".
abbrev pub NoDots : List (List ℕ) → Type 0
NoDots [] = Unit {0}
NoDots (name ∷ names) = (is_dot name ≡ false) × NoDots names

-- Of the structures made since `base`, only `d` is referred to, once, unless `d` is the directory
-- `parent` that the path begins at; the references to all older ones are `refs`.
pub record Balanced {N : Type 0} (parent base : ℕ) (refs : ℕ → ℕ) (d : ℕ) (s : Dirents N)
    : Type 0 where
  pub older : (i : ℕ) → i < base → s.refs i ≡ refs i
  pub newer : (i : ℕ) → base ≤ i → i < s.count → s.refs i ≡ (if i == d then 1 else 0)
  pub place : (d ≡ parent) ⊎ (base ≤ d)
  pub known : d < s.count
  pub grown : base ≤ s.count

-- What a traversal gives, or the directory that it began at
abbrev pub found_or : ℕ → Option ℕ → ℕ
found_or parent none = parent
found_or parent (some n) = n

module _ {N : Type 0} (find : N → List ℕ → Option N) (parent base : ℕ) (refs : ℕ → ℕ)
    (old : parent < base) where
  -- The directory that a round leaves is closed, if it is not the first.
  abbrev left : ℕ → Dirents N → Dirents N
  left d s = if d == parent then s else dirent_close find s d

  left-Balanced :
      (d : ℕ) (s : Dirents N)
      → Balanced parent base refs d s
      → Balanced parent base refs parent (left d s)
  left-Balanced d s b = elim (Bool-cases (d == parent)) [
    | inl same ↦
        let e : d ≡ parent = ground arith in
        rw same (record {
          older = b.older;
          newer = λ i le lt. b.newer i le lt ∙ rw e refl;
          place = inl refl;
          known = omega (arith, b.grown);
          grown = b.grown;
        })
    | inr other ↦
        let fresh : base ≤ d = ground (arith, b.place) in
        rw other (record {
          older = λ i lt. ground (arith, b.older i lt);
          newer = λ i le lt. ground (arith, b.newer i le lt);
          place = inl refl;
          known = omega (arith, b.grown);
          grown = b.grown;
        })
  ]

  made-Balanced :
      (d : ℕ) (s : Dirents N) (n : N)
      → Balanced parent base refs d s
      → Balanced parent base refs s.count (left d (made find s n))
  made-Balanced d s n b = elim (Bool-cases (d == parent)) [
    | inl same ↦ rw same (record {
      older = λ i lt. ground (arith, b.older i lt, b.grown);
      newer = λ i le lt. ground (arith, b.newer i le);
      place = inr b.grown;
      known = omega arith;
      grown = omega (arith, b.grown);
    })
    | inr other ↦
        let fresh : base ≤ d = ground (arith, b.place) in
        rw other (record {
          older = λ i lt. ground (arith, b.older i lt, b.grown);
          newer = λ i le lt. ground (arith, b.newer i le, b.known);
          place = inr b.grown;
          known = omega arith;
          grown = omega (arith, b.grown);
        })
  ]

  lookup-none :
      (s : Dirents N) (d : ℕ) (name : List ℕ)
      → is_dot name ≡ false
      → find (s.entry d) name ≡ none
      → lookup find s d name ≡ (none, s)
  unfolding lookup
  lookup-none s d name plain e = rw (plain, e) refl

  lookup-some :
      (s : Dirents N) (d : ℕ) (name : List ℕ) (n : N)
      → is_dot name ≡ false
      → find (s.entry d) name ≡ some n
      → lookup find s d name ≡ (some s.count, made find s n)
  unfolding lookup
  lookup-some s d name n plain e = rw (plain, e) refl

  -- A round of the loop, once the lookup has been made
  abbrev after : ℕ → List (List ℕ) → Option ℕ × Dirents N → Option ℕ × Dirents N
  after d names r = elim r.0 [
    | none ↦ (none, left d r.1)
    | some n ↦ walk find parent n names (left d r.1)
  ]

  abbrev HoldsAfter : ℕ → List (List ℕ) → Option ℕ × Dirents N → Type 0
  HoldsAfter d names r =
      Balanced parent base refs (found_or parent (after d names r).0) (after d names r).1

  -- Along a path with no ".", every directory that was opened on the way is closed again.
  pub walk-Balanced_from :
      (d : ℕ) (names : List (List ℕ)) (s : Dirents N)
      → NoDots names
      → Balanced parent base refs d s
      → Balanced parent base refs
          (found_or parent (walk find parent d names s).0)
          (walk find parent d names s).1
  unfolding walk
  walk-Balanced_from d [] s plain b = b
  walk-Balanced_from d (name ∷ names) s plain b = elim (Option-cases (find (s.entry d) name)) [
    | inl e ↦
        subst (HoldsAfter d names) (sym (lookup-none s d name plain.0 e)) (left-Balanced d s b)
    | inr (n, e) ↦
        subst (HoldsAfter d names) (sym (lookup-some s d name n plain.0 e)) (
          walk-Balanced_from s.count names (left d (made find s n)) plain.1 (made-Balanced d s n b))
  ]

-- A traversal along a path with no "." changes no reference to an entry that was open before, and of
-- the entries that it opens only the one that it gives stays referred to, once.
pub walk-Balanced :
    {N : Type 0} (find : N → List ℕ → Option N) (parent : ℕ) (names : List (List ℕ)) (s : Dirents N)
    → NoDots names
    → parent < s.count
    → let r = walk find parent parent names s in
      Balanced parent s.count s.refs (found_or parent r.0) r.1
walk-Balanced find parent names s plain known =
    walk-Balanced_from find parent s.count s.refs known parent names s plain (record {
      older = λ i lt. refl;
      newer = λ i le lt. absurd (omega arith);
      place = inl refl;
      known = known;
      grown = omega arith;
    })

lookup_dot :
    {N : Type 0} (find : N → List ℕ → Option N) (s : Dirents N) (d : ℕ) (name : List ℕ)
    → is_dot name ≡ true
    → lookup find s d name ≡ (some d, dirent_addref find s d)
unfolding lookup
lookup_dot find s d name dot = rw dot refl

-- A path that begins with "." and goes on leaves the directory that it begins at with one reference more
-- than before, whether the rest of the path, with no further ".", is found or not.
pub walk_leaks :
    {N : Type 0} (find : N → List ℕ → Option N) (parent : ℕ) (name next : List ℕ)
    (names : List (List ℕ)) (s : Dirents N)
    → is_dot name ≡ true
    → NoDots (next ∷ names)
    → parent < s.count
    → (walk find parent parent (name ∷ next ∷ names) s).1.refs parent ≡ suc (s.refs parent)
unfolding walk
walk_leaks {N} find parent name next names s dot plain known =
    let s' : Dirents N = dirent_addref find s parent in
    let rest : List (List ℕ) = next ∷ names in
    let b = walk-Balanced find parent rest s' plain known in
    subst
      (λ r.
        (after find parent s.count s.refs known parent rest r).1.refs parent ≡ suc (s.refs parent))
      (sym (lookup_dot find s parent name dot))
      (rw (==-refl parent) (b.older parent known ∙ rw (==-refl parent) refl))
