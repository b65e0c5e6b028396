-- ===== src/BCache/Write.antt =====
-- `bcache_write_block` of `basekernel/kernel/bcache.c` as a write to the block that the cache shows.
use stage_os.Base.{
  ℕ, suc, ◌≡◌, refl, ap, Bool, true, false, ◌&&◌, none, some, List, [], ◌∷◌, ◌==◌, if◌then◌else◌,
  length, arith, inl, inr, Bool-cases, Option-cases,
}
use stage_os.BCache.{Devices, Entry, Cache, find, change, write_block, is_at}
use stage_os.BCache.Trim.{is_at-true}
use stage_os.BCache.View.{view, Absent, Distinct, AllBacked, KeepsBlocks}
use stage_os.BCache.Refine.{shown, IsValid, find-Absent, hit, miss, change-head}

module _ {ℓ} {B : Type ℓ} where
  -- The assignments of a write
  abbrev stored : B → Entry B → Entry B
  stored x e = record e { dirty = true; content = x }

  is_at-other :
      (dv b dv' b' : ℕ) (e : Entry B)
      → is_at dv b e ≡ true
      → (dv == dv' && b == b') ≡ is_at dv' b' e
  is_at-other dv b dv' b' e h = ground arith

  is_at-apart :
      (dv b dv' b' : ℕ) (e : Entry B)
      → is_at dv b e ≡ false
      → is_at dv' b' e ≡ true
      → (dv == dv' && b == b') ≡ false
  is_at-apart dv b dv' b' e h h' = ground arith

  Absent-change :
      (dv b : ℕ) (x : B) (es : List (Entry B)) (dv' b' : ℕ)
      → Absent dv' b' es
      → Absent dv' b' (change dv b (stored x) es)
  unfolding change
  Absent-change dv b x [] dv' b' a = tt
  Absent-change dv b x (e ∷ es) dv' b' a = elim (Bool-cases (is_at dv b e)) [
    | inl t ↦ rw t a
    | inr t ↦ rw t (a.0, Absent-change dv b x es dv' b' a.1)
  ]

  Distinct-change :
      (dv b : ℕ) (x : B) (es : List (Entry B)) → Distinct es → Distinct (change dv b (stored x) es)
  unfolding change
  Distinct-change dv b x [] h = tt
  Distinct-change dv b x (e ∷ es) h = elim (Bool-cases (is_at dv b e)) [
    | inl t ↦ rw t h
    | inr t ↦ rw t (Absent-change dv b x es e.device e.block h.0, Distinct-change dv b x es h.1)
  ]

  length-change :
      (dv b : ℕ) (x : B) (es : List (Entry B)) → length (change dv b (stored x) es) ≡ length es
  unfolding change
  length-change dv b x [] = refl
  length-change dv b x (e ∷ es) = elim (Bool-cases (is_at dv b e)) [
    | inl t ↦ rw t refl
    | inr t ↦ rw t (ap suc (length-change dv b x es))
  ]

module _ {ℓ ℓ'} {D : Type ℓ} {B : Type ℓ'} (io : Devices D B) where
  AllBacked-change :
      (writable : ℕ → ℕ → Bool) (dv b : ℕ) (x : B) (es : List (Entry B)) (d : D)
      → writable dv b ≡ true
      → AllBacked io writable d es
      → AllBacked io writable d (change dv b (stored x) es)
  unfolding change
  AllBacked-change writable dv b x [] d can h = tt
  AllBacked-change writable dv b x (e ∷ es) d can h = elim (Bool-cases (is_at dv b e)) [
    | inl t ↦
        let p = is_at-true dv b e t in
        rw t (λ c. let can' = rw (p.0, p.1) at c in cc (can, can'), h.1)
    | inr t ↦ rw t (h.0, AllBacked-change writable dv b x es d can h.1)
  ]

  view-change :
      (dv b : ℕ) (x : B) (es : List (Entry B)) (d : D) (e : Entry B) (dv' b' : ℕ)
      → find dv b es ≡ some e
      → view io (change dv b (stored x) es) d dv' b'
        ≡ (if dv == dv' && b == b' then some x else view io es d dv' b')
  unfolding find change view
  view-change dv b x [] d e dv' b' h = cc
  view-change dv b x (f ∷ es) d e dv' b' h = elim (Bool-cases (is_at dv b f)) [
    | inl t ↦ elim (Bool-cases (is_at dv' b' f)) [
      | inl u ↦ rw (t, is_at-other dv b dv' b' f t, u) refl
      | inr u ↦ rw (t, is_at-other dv b dv' b' f t, u) refl
    ]
    | inr t ↦
        let g = rw (t, find) at h in
        elim (Bool-cases (is_at dv' b' f)) [
          | inl u ↦ rw (t, is_at-apart dv b dv' b' f t u, u) refl
          | inr u ↦ rw (t, u) (view-change dv b x es d e dv' b' g)
        ]
  ]

  -- What a write leaves
  pub record Written (writable : ℕ → ℕ → Bool) (c : Cache D B) (dv b : ℕ) (x : B) (c' : Cache D B)
      : Type (ℓ ⊔ ℓ') where
    pub valid : IsValid io writable c'
    pub now :
        (dv' b' : ℕ)
        → shown io c' dv' b' ≡ (if dv == dv' && b == b' then some x else shown io c dv' b')

  write-hit :
      {writable : ℕ → ℕ → Bool} (cleared : B) (left : Bool) (dv b : ℕ) (x : B) (c : Cache D B)
      (e : Entry B)
      → writable dv b ≡ true
      → IsValid io writable c
      → find dv b c.entries ≡ some e
      → Written writable c dv b x (write_block io cleared left dv b x c)
  unfolding write_block
  write-hit {writable} cleared left dv b x c e can v h =
      rw (write_block, hit io cleared left dv b c e v h)
        record {
          valid = record {
            backed = AllBacked-change writable dv b x c.entries c.disk can v.backed;
            distinct = Distinct-change dv b x c.entries v.distinct;
            bound = omega (arith, v.bound, length-change dv b x c.entries);
          };
          now = λ dv' b'. view-change dv b x c.entries c.disk e dv' b' h;
        }

  write-miss :
      {writable : ℕ → ℕ → Bool} (laws : KeepsBlocks io writable) (cleared : B) (left : Bool)
      (dv b : ℕ) (x : B) (c : Cache D B)
      → writable dv b ≡ true
      → IsValid io writable c
      → find dv b c.entries ≡ none
      → Written writable c dv b x (write_block io cleared left dv b x c)
  unfolding write_block view
  write-miss {writable} laws cleared left dv b x c can v h =
      let m = miss io laws cleared left dv b c v h in
      let t = m.4 in
      rw (write_block, m.3, change-head cleared left dv b (stored x) m.0)
        record {
          valid = record {
            backed = (λ clean. cc (can, clean), t.backed);
            distinct = (t.absent dv b (find-Absent io dv b c.entries h), t.distinct);
            bound = t.bound;
          };
          now = λ dv' b'. ap (λ v. if dv == dv' && b == b' then some x else v) (t.same_view dv' b');
        }

  -- After a write of a writable block to a valid cache the block shows what was written and every other
  -- block what it showed before, and the cache is valid and of at most 100 entries. Devices may refuse
  -- to write other blocks.
  pub write_block-Written :
      {writable : ℕ → ℕ → Bool} (laws : KeepsBlocks io writable) (cleared : B) (left : Bool)
      (dv b : ℕ) (x : B) (c : Cache D B)
      → writable dv b ≡ true
      → IsValid io writable c
      → Written writable c dv b x (write_block io cleared left dv b x c)
  write_block-Written laws cleared left dv b x c can v = elim (Option-cases (find dv b c.entries)) [
    | inl h ↦ write-miss laws cleared left dv b x c can v h
    | inr p ↦ write-hit cleared left dv b x c p.0 can v p.1
  ]
