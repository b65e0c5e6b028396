-- ===== src/Kmalloc/Layout.antt =====
-- How the chunks of the kernel heap of `basekernel/kernel/kmalloc.c` lie in memory.
use stage_os.Base.{
  ℕ, ◌+◌, ◌-◌, ◌*◌, ◌≤◌, ◌<◌, ◌≡◌, ◌∙◌, refl, ap, sym, subst, Bool, true, false, not, ◌&&◌, some,
  List, [], ◌∷◌, ◌==◌, ltb, leb, if◌then◌else◌, arith, inl, inr, Bool-cases, Option-cases,
}
use mathlib.Core.Option.{some-injective}
use stage_os.Kmalloc.{
  Chunk, kunit, padded, take_chunk, first_fit, kmalloc, join_next, join_prev, free_behind,
  free_from, kfree,
}

-- The chunks fill the memory from `b` to `e` without gaps, and no two free ones touch. `fr` says that
-- the chunk before them is free.
abbrev pub Fills : Bool → ℕ → ℕ → List Chunk → Type 0
Fills fr b e [] = b ≡ e
Fills fr b e (c ∷ h) =
    (c.address ≡ b)
    × (0 < c.length)
    × ((fr && not c.used) ≡ false)
    × Fills (not c.used) (b + c.length) e h

Fills-after_used : (fr : Bool) (b e : ℕ) (h : List Chunk) → Fills fr b e h → Fills false b e h
Fills-after_used fr b e [] v = v
Fills-after_used fr b e (c ∷ h) v = (v.0, v.1, refl, v.3)

and_false : (fr : Bool) → (fr && false) ≡ false
and_false true = refl
and_false false = refl

take_chunk-Fills :
    (fr : Bool) (b e need : ℕ) (c : Chunk) (h : List Chunk)
    → 0 < need
    → need ≤ c.length
    → c.used ≡ false
    → Fills fr b e (c ∷ h)
    → Fills fr b e (take_chunk need c h)
unfolding take_chunk
take_chunk-Fills fr b e need c h pos fits free v =
    let rest = subst (λ u. Fills (not u) (b + c.length) e h) free v.3 in
    let off : (fr && false) ≡ false = and_false fr in
    elim (Bool-cases (ltb (2 * kunit) (c.length - need))) [
      | inl t ↦
          let end : b + need + (c.length - need) ≡ b + c.length = omega arith in
          rw t (
            v.0,
            pos,
            off,
            (
              ap (λ x. x + need) v.0,
              ground arith,
              refl,
              subst (λ x. Fills true x e h) (sym end) rest,
            ),
          )
      | inr t ↦ rw t (v.0, v.1, off, Fills-after_used true (b + c.length) e h rest)
    ]

first_fit-Fills :
    (fr : Bool) (b e need : ℕ) (h : List Chunk) (r : ℕ × List Chunk)
    → 0 < need
    → Fills fr b e h
    → first_fit need h ≡ some r
    → Fills fr b e r.1
unfolding first_fit
first_fit-Fills fr b e need [] r pos v eq = absurd cc
first_fit-Fills fr b e need (c ∷ h) r pos v eq =
    elim (Bool-cases (not c.used && leb need c.length)) [
      | inl t ↦
          let f = rw (t, first_fit) at eq in
          let g = some-injective (c.address, take_chunk need c h) r f in
          subst (λ x. Fills fr b e x.1) g
            (take_chunk-Fills fr b e need c h pos (ground arith) (ground arith) v)
      | inr t ↦ elim (Option-cases (first_fit need h)) [
        | inl z ↦ let f = rw (t, z, first_fit) at eq in absurd cc
        | inr s ↦
            let f = rw (t, s.1, first_fit) at eq in
            let g = some-injective (s.0.0, c ∷ s.0.1) r f in
            subst (λ x. Fills fr b e x.1) g
              (v.0, v.1, v.2, first_fit-Fills (not c.used) (b + c.length) e need h s.0 pos v.3 s.1)
      ]
    ]

-- `kmalloc` keeps the heap filled without gaps and no two free chunks next to each other.
pub kmalloc-Fills :
    (b e length : ℕ) (h : List Chunk) → Fills false b e h → Fills false b e (kmalloc length h).1
unfolding kmalloc padded
kmalloc-Fills b e length h v = elim (Option-cases (first_fit (padded length) h)) [
  | inl z ↦ rw (z, kmalloc) v
  | inr s ↦ rw (s.1, kmalloc) (first_fit-Fills false b e (padded length) h s.0 (omega arith) v s.1)
]

either {ℓ ℓ'} :
    {A : Type ℓ} {x y : A} (P : A → Type ℓ') (u : Bool)
    → (u ≡ true → P x)
    → (u ≡ false → P y)
    → P (if u then x else y)
either P true f g = f refl
either P false f g = g refl

-- What is joined fills the same memory, and no free chunk touches it from behind.
join_next-Fills :
    (b e : ℕ) (c : Chunk) (h : List Chunk)
    → c.used ≡ true
    → Fills false b e (c ∷ h)
    → let r = join_next c h in
      (r.0.address ≡ b) × (0 < r.0.length) × (r.0.used ≡ false) × Fills true (b + r.0.length) e r.1
unfolding join_next
join_next-Fills b e c [] used v = (v.0, v.1, refl, v.3)
join_next-Fills b e c (d ∷ h) used v =
    let next = v.3 in
    let sum : b + c.length + d.length ≡ b + (c.length + d.length) = omega arith in
    either {A = Chunk × List Chunk}
      (λ r.
        (r.0.address ≡ b)
        × (0 < r.0.length)
        × (r.0.used ≡ false)
        × Fills true (b + r.0.length) e r.1)
      d.used (λ t. (v.0, v.1, refl, (next.0, next.1, ap not t, next.3)))
      (λ t.
        let rest = subst (λ u. Fills (not u) (b + c.length + d.length) e h) t next.3 in
        (v.0, omega (arith, v.1), refl, subst (λ x. Fills true x e h) sum rest))

join_prev-Fills :
    (fr : Bool) (b e : ℕ) (p c : Chunk) (h : List Chunk)
    → c.used ≡ true
    → Fills fr b e (p ∷ c ∷ h)
    → Fills fr b e (join_prev p (join_next c h))
unfolding join_prev
join_prev-Fills fr b e p c h used v =
    let n =
      join_next-Fills (b + p.length) e c h used
        (Fills-after_used (not p.used) (b + p.length) e (c ∷ h) v.3) in
    let r = join_next c h in
    elim (Bool-cases p.used) [
      | inl t ↦ rw t (
        v.0,
        v.1,
        ap (λ u. fr && not u) (sym t) ∙ v.2,
        (
          n.0,
          n.1,
          refl,
          subst (λ u. Fills (not u) (b + p.length + r.0.length) e r.1) (sym n.2) n.3,
        ),
      )
      | inr t ↦
          let sum : b + p.length + r.0.length ≡ b + (p.length + r.0.length) = omega arith in
          rw t (
            v.0,
            omega (arith, v.1),
            ap (λ u. fr && not u) (sym t) ∙ v.2,
            subst (λ x. Fills true x e r.1) sum n.3,
          )
    ]

free_behind-Fills :
    (fr : Bool) (b e a : ℕ) (p : Chunk) (h r : List Chunk)
    → Fills fr b e (p ∷ h)
    → free_behind a p h ≡ some r
    → Fills fr b e r
unfolding free_behind
free_behind-Fills fr b e a p [] r v eq = absurd cc
free_behind-Fills fr b e a p (c ∷ h) r v eq = elim (Bool-cases (c.address == a)) [
  | inl t ↦
      let f = rw (t, free_behind) at eq in
      let freed = if c.used then join_prev p (join_next c h) else p ∷ c ∷ h in
      subst (Fills fr b e) (some-injective freed r f)
        (either (Fills fr b e) c.used (λ u. join_prev-Fills fr b e p c h u v) (λ u. v))
  | inr t ↦ elim (Option-cases (free_behind a c h)) [
    | inl z ↦ let f = rw (t, z, free_behind) at eq in absurd cc
    | inr s ↦
        let f = rw (t, s.1, free_behind) at eq in
        subst (Fills fr b e) (some-injective (p ∷ s.0) r f)
          (v.0, v.1, v.2, free_behind-Fills (not p.used) (b + p.length) e a c h s.0 v.3 s.1)
  ]
]

-- `kfree` of a pointer to a chunk keeps the heap filled without gaps and no two free chunks next to
-- each other.
pub kfree-Fills :
    (b e ptr : ℕ) (h r : List Chunk) → Fills false b e h → kfree ptr h ≡ some r → Fills false b e r
unfolding kfree free_from
kfree-Fills b e ptr [] r v eq = absurd cc
kfree-Fills b e ptr (c ∷ h) r v eq = elim (Bool-cases (c.address == ptr - kunit)) [
  | inl t ↦
      let f = rw (t, kfree, free_from) at eq in
      let j = join_next c h in
      let freed = if c.used then j.0 ∷ j.1 else c ∷ h in
      subst (Fills false b e) (some-injective freed r f) (
        either (Fills false b e) c.used
          (λ u.
            let n = join_next-Fills b e c h u v in
            (n.0, n.1, refl, subst (λ x. Fills (not x) (b + j.0.length) e j.1) (sym n.2) n.3))
          (λ u. v))
  | inr t ↦
      let f = rw (t, kfree, free_from) at eq in free_behind-Fills false b e (ptr - kunit) c h r v f
]
