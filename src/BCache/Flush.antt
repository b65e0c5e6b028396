-- ===== src/BCache/Flush.antt =====
-- `bcache_flush_all` of `basekernel/kernel/bcache.c`: the devices get what the cache shows.
use stage_os.Base.{Bool, ℕ, ◌≡◌, ◌∙◌, refl, subst, some, List, [], ◌∷◌, inl, inr, Bool-cases}
use stage_os.BCache.{Devices, Entry, Cache, entry_clean, clean_all, flush_all, is_at}
use stage_os.BCache.View.{view, Distinct, AllBacked, KeepsBlocks}
use stage_os.BCache.Trim.{is_at-true, clean-same, clean-other, clean-AllBacked}
use stage_os.BCache.Refine.{shown, IsValid, Absent-view}

module _ {ℓ ℓ'} {D : Type ℓ} {B : Type ℓ'} (io : Devices D B) where
  view-other :
      (es : List (Entry B)) (d d' : D) (dv b : ℕ)
      → io.read_block d' dv b ≡ io.read_block d dv b
      → view io es d' dv b ≡ view io es d dv b
  unfolding view
  view-other [] d d' dv b h = h
  view-other (e ∷ es) d d' dv b h = rw (view-other es d d' dv b h) refl

  view-settled :
      (es : List (Entry B)) (d d' : D) (dv b : ℕ)
      → io.read_block d' dv b ≡ view io es d dv b
      → view io es d' dv b ≡ view io es d dv b
  unfolding view
  view-settled [] d d' dv b h = h
  view-settled (e ∷ es) d d' dv b h = elim (Bool-cases (is_at dv b e)) [
    | inl t ↦ rw t refl
    | inr t ↦ let g = rw (t, view) at h in rw t (view-settled es d d' dv b g)
  ]

  clean-fields :
      (e : Entry B) (d : D) (n dv b : ℕ)
      → (is_at dv b (entry_clean io e d n).0 ≡ is_at dv b e)
        × ((entry_clean io e d n).0.content ≡ e.content)
  unfolding entry_clean
  clean-fields e d n dv b = elim (Bool-cases e.dirty) [
    | inl t ↦ rw t (refl, refl)
    | inr t ↦ rw t (refl, refl)
  ]

  -- Cleaning does not change what the entries hold.
  view-cleaned :
      (es : List (Entry B)) (d : D) (n : ℕ) (x : D) (dv b : ℕ)
      → view io (clean_all io es d n).0 x dv b ≡ view io es x dv b
  unfolding view clean_all
  view-cleaned [] d n x dv b = refl
  view-cleaned (e ∷ es) d n x dv b =
      let f = clean-fields e d n dv b in
      let c = entry_clean io e d n in rw (f.0, f.1, view-cleaned es c.1 c.2 x dv b) refl

module _ {ℓ ℓ'} {D : Type ℓ} {B : Type ℓ'} (io : Devices D B) {writable : ℕ → ℕ → Bool}
    (laws : KeepsBlocks io writable) where
  clean_all-disk :
      (es : List (Entry B)) (d : D) (n dv b : ℕ)
      → AllBacked io writable d es
      → Distinct es
      → io.read_block (clean_all io es d n).1 dv b ≡ view io es d dv b
  unfolding view clean_all
  clean_all-disk [] d n dv b ab di = refl
  clean_all-disk (e ∷ es) d n dv b ab di =
      let c = entry_clean io e d n in
      let rest = clean_all-disk es c.1 c.2 dv b (clean-AllBacked io laws es e d n ab.1 di.0) di.1 in
      elim (Bool-cases (is_at dv b e)) [
        | inl t ↦
            let p = is_at-true dv b e t in
            rw t (
              rest
              ∙ subst (λ v. view io es c.1 v b ≡ some e.content) p.0
                  (subst (λ v. view io es c.1 e.device v ≡ some e.content) p.1
                    (Absent-view io e.device e.block es c.1 di.0 ∙ clean-same io laws e d n ab.0)))
        | inr t ↦ rw t (rest ∙ view-other io es d c.1 dv b (clean-other io laws e d n dv b t))
      ]

  -- After a flush of a valid cache, in which only writable blocks differ from the devices, the devices
  -- themselves hold every block that the cache showed, and it still shows the same.
  pub flush_all-disk :
      (c : Cache D B) (dv b : ℕ)
      → IsValid io writable c
      → (io.read_block (flush_all io c).disk dv b ≡ shown io c dv b)
        × (shown io (flush_all io c) dv b ≡ shown io c dv b)
  unfolding flush_all
  flush_all-disk c dv b v =
      let n = c.stats.writebacks in
      let d' = (clean_all io c.entries c.disk n).1 in
      let on_disk = clean_all-disk c.entries c.disk n dv b v.backed v.distinct in
      (
        on_disk,
        view-cleaned io c.entries c.disk n d' dv b
            ∙ view-settled io c.entries c.disk d' dv b on_disk,
      )
