-- ===== src/BCache/Refine.antt =====
-- `bcache_read_block` and `bcache_write_block` of `basekernel/kernel/bcache.c` as accesses to the blocks
-- that the cache shows.
use stage_os.Base.{
  ℕ, zero, suc, ◌≤◌, ◌≡◌, refl, ap, Bool, true, false, Option, none, some, List, [], ◌∷◌, length,
  arith, inl, inr, Bool-cases, ge→ltb, ==-refl,
}
use stage_os.BCache.{
  Devices, Entry, Cache, trim_loop, trim, find, change, list_remove, content_of, find_or_create,
  is_at, max_cache_size,
}
use stage_os.BCache.View.{view, Absent, Distinct, AllBacked, KeepsBlocks}
use stage_os.BCache.Trim.{Trimmed, trim_loop-Trimmed}

module _ {ℓ} {B : Type ℓ} where
  -- An entry for the block
  abbrev pub fresh : B → Bool → ℕ → ℕ → Entry B
  fresh x dirty dv b = record { device = dv; block = b; dirty = dirty; content = x }

  pub change-head :
      (x : B) (dirty : Bool) (dv b : ℕ) (f : Entry B → Entry B) (es : List (Entry B))
      → change dv b f (fresh x dirty dv b ∷ es) ≡ f (fresh x dirty dv b) ∷ es
  unfolding change
  change-head x dirty dv b f es = rw (==-refl dv, ==-refl b) refl

  pub list_remove-head :
      (x : B) (dirty : Bool) (dv b : ℕ) (es : List (Entry B))
      → list_remove dv b (fresh x dirty dv b ∷ es) ≡ es
  unfolding list_remove
  list_remove-head x dirty dv b es = rw (==-refl dv, ==-refl b) refl

module _ {ℓ ℓ'} {D : Type ℓ} {B : Type ℓ'} where
  -- The cache after a block that was not cached got an entry
  abbrev pub at_head : Entry B → List (Entry B) → D → ℕ → Cache D B → Cache D B
  at_head e es d n c = record c {
    entries = e ∷ es;
    disk = d;
    stats = record c.stats { writebacks = n };
  }

module _ {ℓ ℓ'} {D : Type ℓ} {B : Type ℓ'} (io : Devices D B) where
  -- What a client reads at a block
  abbrev pub shown : Cache D B → ℕ → ℕ → Option B
  shown c dv b = view io c.entries c.disk dv b

  -- The first of the conditions says that a block that cannot be written is not changed in the cache
  -- either.
  pub record IsValid (writable : ℕ → ℕ → Bool) (c : Cache D B) : Type (ℓ ⊔ ℓ') where
    pub backed : AllBacked io writable c.disk c.entries
    pub distinct : Distinct c.entries
    pub bound : length c.entries ≤ max_cache_size

  pub find-view :
      (dv b : ℕ) (es : List (Entry B)) (d : D) (e : Entry B)
      → find dv b es ≡ some e
      → view io es d dv b ≡ some e.content
  unfolding find view
  find-view dv b [] d e h = cc
  find-view dv b (f ∷ es) d e h = elim (Bool-cases (is_at dv b f)) [
    | inl t ↦ let g = rw (t, find) at h in rw t (ap content_of g)
    | inr t ↦ let g = rw (t, find) at h in rw t (find-view dv b es d e g)
  ]

  pub find-Absent : (dv b : ℕ) (es : List (Entry B)) → find dv b es ≡ none → Absent dv b es
  unfolding find
  find-Absent dv b [] h = tt
  find-Absent dv b (f ∷ es) h = elim (Bool-cases (is_at dv b f)) [
    | inl t ↦ let g = rw (t, find) at h in cc
    | inr t ↦ let g = rw (t, find) at h in (t, find-Absent dv b es g)
  ]

  pub Absent-view :
      (dv b : ℕ) (es : List (Entry B)) (d : D)
      → Absent dv b es
      → view io es d dv b ≡ io.read_block d dv b
  unfolding view
  Absent-view dv b [] d a = refl
  Absent-view dv b (e ∷ es) d a = rw a.0 (Absent-view dv b es d a.1)

  -- A list that is short enough is not trimmed.
  trim_loop-idle :
      (rounds : ℕ) (es : List (Entry B)) (d : D) (n : ℕ)
      → length es ≤ max_cache_size
      → trim_loop io rounds es d n ≡ (es, d, n)
  unfolding trim_loop
  trim_loop-idle zero es d n h = refl
  trim_loop-idle (suc rounds) [] d n h = refl
  trim_loop-idle (suc rounds) (e ∷ es) d n h = rw (ge→ltb max_cache_size (length (e ∷ es)) h) refl

  trim-idle : (c : Cache D B) → length c.entries ≤ max_cache_size → trim io c ≡ c
  unfolding trim
  trim-idle c h = rw (trim_loop-idle (length c.entries) c.entries c.disk c.stats.writebacks h) refl

  pub hit :
      {writable : ℕ → ℕ → Bool} (cleared : B) (left : Bool) (dv b : ℕ) (c : Cache D B) (e : Entry B)
      → IsValid writable c
      → find dv b c.entries ≡ some e
      → find_or_create io cleared left dv b c ≡ (true, c)
  unfolding find_or_create
  hit {writable} cleared left dv b c e v h = rw (h, find_or_create, trim-idle c v.bound) refl

  pub miss :
      {writable : ℕ → ℕ → Bool} (laws : KeepsBlocks io writable) (cleared : B) (left : Bool)
      (dv b : ℕ) (c : Cache D B)
      → IsValid writable c
      → find dv b c.entries ≡ none
      → (es' : List (Entry B)) × (d' : D) × (n' : ℕ) × (find_or_create io cleared left dv b c
          ≡ (false, at_head (fresh cleared left dv b) es' d' n' c))
        × Trimmed io laws c.entries c.disk es' d'
  unfolding find_or_create trim
  miss {writable} laws cleared left dv b c v h =
      let e = fresh cleared left dv b in
      let r =
        trim_loop-Trimmed io laws (length (e ∷ c.entries)) e c.entries c.disk c.stats.writebacks
          v.backed v.distinct (omega arith) in
      (r.0, r.1, r.2, rw (h, find_or_create, trim, r.3) refl, r.4)
