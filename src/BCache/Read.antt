-- ===== src/BCache/Read.antt =====
-- `bcache_read_block` of `basekernel/kernel/bcache.c` as a read of the block that the cache shows.
use stage_os.Base.{
  Bool, ℕ, ◌≡◌, ◌∙◌, refl, ap, sym, Bool, Option, none, some, List, ◌∷◌, arith, inl, inr,
  Bool-cases, Option-cases,
}
use stage_os.BCache.{Devices, Entry, Cache, find, read_block, is_at}
use stage_os.BCache.View.{view, KeepsBlocks}
use stage_os.BCache.Trim.{is_at-true}
use stage_os.BCache.Refine.{
  shown, IsValid, find-view, find-Absent, Absent-view, hit, miss, fresh, change-head,
  list_remove-head,
}

module _ {ℓ ℓ'} {D : Type ℓ} {B : Type ℓ'} (io : Devices D B) {writable : ℕ → ℕ → Bool}
    (laws : KeepsBlocks io writable) where
  -- What a read gives, and what it leaves
  pub record Fetched (c : Cache D B) (dv b : ℕ) (r : Option B × Cache D B) : Type (ℓ ⊔ ℓ') where
    pub value : r.0 ≡ shown io c dv b
    pub valid : IsValid io writable r.1
    pub same : (dv' b' : ℕ) → shown io r.1 dv' b' ≡ shown io c dv' b'

  -- A new entry that holds what the device has shows nothing new.
  view-fresh :
      (es : List (Entry B)) (d : D) (x : B) (left : Bool) (dv b dv' b' : ℕ)
      → view io es d dv b ≡ some x
      → view io (fresh x left dv b ∷ es) d dv' b' ≡ view io es d dv' b'
  unfolding view
  view-fresh es d x left dv b dv' b' h = elim (Bool-cases (is_at dv' b' (fresh x left dv b))) [
    | inl t ↦
        let p = is_at-true dv' b' (fresh x left dv b) t in
        rw t (sym h ∙ ap (λ v. view io es d v b) p.0 ∙ ap (view io es d dv') p.1)
    | inr t ↦ rw t refl
  ]

  read-hit :
      (cleared : B) (left : Bool) (dv b : ℕ) (c : Cache D B) (e : Entry B)
      → IsValid io writable c
      → find dv b c.entries ≡ some e
      → Fetched c dv b (read_block io cleared left dv b c)
  unfolding read_block
  read-hit cleared left dv b c e v h =
      rw (read_block, hit io cleared left dv b c e v h, h)
        record {
          value = sym (find-view io dv b c.entries c.disk e h);
          valid = record { backed = v.backed; distinct = v.distinct; bound = v.bound };
          same = λ dv' b'. refl;
        }

  read-miss :
      (cleared : B) (left : Bool) (dv b : ℕ) (c : Cache D B)
      → IsValid io writable c
      → find dv b c.entries ≡ none
      → Fetched c dv b (read_block io cleared left dv b c)
  unfolding read_block
  read-miss cleared left dv b c v h =
      let m = miss io laws cleared left dv b c v h in
      let t = m.4 in
      let es' = m.0 in
      let d' = m.1 in
      let a = t.absent dv b (find-Absent io dv b c.entries h) in
      let now : view io es' d' dv b ≡ io.read_block d' dv b = Absent-view io dv b es' d' a in
      let value = sym now ∙ t.same_view dv b in
      elim (Option-cases (io.read_block d' dv b)) [
        | inl z ↦
            rw (read_block, m.3, z, m.3, list_remove-head cleared left dv b es')
              record {
                value = sym z ∙ value;
                valid = record {
                  backed = t.backed;
                  distinct = t.distinct;
                  bound = omega (arith, t.bound);
                };
                same = t.same_view;
              }
        | inr p ↦
            rw
              (
                read_block,
                m.3,
                p.1,
                m.3,
                change-head cleared left dv b (λ e. record e { content = p.0 }) es',
              )
              record {
                value = sym p.1 ∙ value;
                valid = record {
                  backed = (λ clean. p.1, t.backed);
                  distinct = (a, t.distinct);
                  bound = t.bound;
                };
                same = λ dv' b'.
                    view-fresh es' d' p.0 left dv b dv' b' (now ∙ p.1) ∙ t.same_view dv' b';
              }
      ]

  -- A read of a valid cache gives the block that the cache shows, fails exactly where the device fails
  -- on a block that is not cached, keeps the cache valid and of at most 100 entries, and changes
  -- nothing that it shows.
  pub read_block-Fetched :
      (cleared : B) (left : Bool) (dv b : ℕ) (c : Cache D B)
      → IsValid io writable c
      → Fetched c dv b (read_block io cleared left dv b c)
  read_block-Fetched cleared left dv b c v = elim (Option-cases (find dv b c.entries)) [
    | inl h ↦ read-miss cleared left dv b c v h
    | inr p ↦ read-hit cleared left dv b c p.0 v p.1
  ]
