-- ===== src/Fs/Write.antt =====
-- `fs_dirent_write` of `basekernel/kernel/fs.c` writes the bytes of the file, and no others.
use stage_os.Base.{
  ℕ, zero, suc, ◌+◌, ◌-◌, ◌*◌, ◌/◌, ◌%◌, ◌^◌, ◌<◌, ◌≤◌, ◌≡◌, refl, ap, ap₂, ◌∙◌, sym, fun_ext,
  false, ◌&&◌, Option, some, List, [], ◌∷◌, ◌==◌, ltb, leb, if◌then◌else◌, length, take, drop,
  get_or, Bool-cases, inl, inr, arith,
}
use stage_os.Fs.{merged, write_round, write_loop, dirent_write, chunk, patch, bytes}
use stage_os.Fs.Slice.{
  slice, length-slice, get_or-slice, length-patch, get_or-patch, get_or-take, length-take,
  get_or-drop, length-drop,
}
use stage_os.Fs.Read.{div_mod, chunk_bounds, outcome_fine}

-- The bytes `b` over the bytes `c` of a file, from place `at` on
abbrev pub overlay : (ℕ → ℕ) → ℕ → List ℕ → ℕ → ℕ
overlay c at b p = if leb at p && ltb p (at + length b) then get_or b (p - at) 0 else c p

-- Block operations that read and write the bytes `content` of a file, for the blocks that begin below
-- `limit`.
pub record BlockFile {S : Type 0} (bs limit : ℕ) (read : S → ℕ → Option (List ℕ))
    (write : S → ℕ → List ℕ → Option S) (content : S → ℕ → ℕ) : Type 0 where
  pub reads : (s : S) (k : ℕ) → k * bs < limit → read s k ≡ some (slice (content s) (k * bs) bs)
  pub writes :
      (s : S) (k : ℕ) (b : List ℕ)
      → k * bs < limit
      → length b ≡ bs
      → (s' : S) × (write s k b ≡ some s')
        × ((p : ℕ) → content s' p ≡ overlay (content s) (k * bs) b p)

-- A list laid over a place in two parts
overlay_parts :
    (c : ℕ → ℕ) (at n : ℕ) (b : List ℕ) (p : ℕ)
    → n ≤ length b
    → overlay (overlay c at (take n b)) (at + n) (drop n b) p ≡ overlay c at b p
overlay_parts c at n b p h =
    let front = length-take b n h in
    let back = length-drop b n in
    elim (Bool-cases (ltb p (at + n))) [
      | inl lo ↦ ground (arith, get_or-take b n (p - at))
      | inr hi ↦
          let behind : at + n ≤ p = ground arith in
          let place : n + (p - (at + n)) ≡ p - at = omega arith in
          ground (arith, get_or-drop b n (p - (at + n)), ap (λ i. get_or b i 0) place)
    ]

-- A block with bytes patched in the middle, laid over the file, is these bytes laid over the file.
overlay-patch :
    (c : ℕ → ℕ) (q x bs : ℕ) (b : List ℕ) (p : ℕ)
    → x + length b ≤ bs
    → overlay c q (patch (slice c q bs) x b) p ≡ overlay c (q + x) b p
overlay-patch c q x bs b p h =
    let whole : length (patch (slice c q bs) x b) ≡ bs =
      length-patch (slice c q bs) x b ∙ length-slice c q bs in
    elim (Bool-cases (leb q p)) [
      | inr before ↦ ground arith
      | inl from ↦
          let at : q ≤ p = ground arith in
          let place : p - q - x ≡ p - (q + x) = omega arith in
          let place' : q + (p - q) ≡ p = omega arith in
          ground (
            arith,
            get_or-patch (slice c q bs) x b (p - q) (omega (arith, length-slice c q bs)),
            get_or-slice c q bs (p - q),
            ap (λ i. get_or b i 0) place,
            ap c place',
          )
    ]

module _ {S : Type 0} (bs limit : ℕ) (read : S → ℕ → Option (List ℕ))
    (write : S → ℕ → List ℕ → Option S) (content : S → ℕ → ℕ) (pos : 0 < bs)
    (file : BlockFile bs limit read write content) where
  -- The block that a round writes
  merged_lem :
      (s : S) (offset : ℕ) (b : List ℕ)
      → 0 < length b
      → offset < limit
      → (m : List ℕ) × (merged bs read s offset b ≡ some m)
        × (length m ≡ bs)
        × ((p : ℕ)
            → overlay (content s) (offset / bs * bs) m p
              ≡ overlay (content s) offset (take (chunk bs offset (length b)) b) p)
  unfolding merged
  merged_lem s offset b some_bytes inside =
      let q : ℕ = offset / bs * bs in
      let x : ℕ = offset % bs in
      let n : ℕ = chunk bs offset (length b) in
      let bound = chunk_bounds bs offset (length b) pos some_bytes in
      let place : q + x ≡ offset = div_mod offset bs pos in
      let got : read s (offset / bs) ≡ some (slice (content s) q bs) =
        file.reads s (offset / bs) (omega arith) in
      let front : length (take n b) ≡ n = length-take b n bound.1 in
      let full : length (patch (slice (content s) q bs) x (take n b)) ≡ bs =
        length-patch (slice (content s) q bs) x (take n b) ∙ length-slice (content s) q bs in
      let laid = λ (p : ℕ).
        overlay-patch (content s) q x bs (take n b) p (omega arith)
        ∙ ap (λ o. overlay (content s) o (take n b) p) place in
      elim (Bool-cases (offset % bs == 0)) [
        | inr within ↦
            let count : n
                ≡ (if leb (bs - offset % bs) (length b) then bs - offset % bs else length b) =
              rw within refl in
            (
              patch (slice (content s) q bs) x (take n b),
              rw (within, got, merged)
                  (ap (λ k. some (patch (slice (content s) q bs) x (take k b))) count),
              full,
              laid,
            )
        | inl aligned ↦ elim (Bool-cases (leb bs (length b))) [
          | inr less ↦
              let count : n ≡ length b = rw (aligned, less) refl in
              (
                patch (slice (content s) q bs) x (take n b),
                rw (aligned, less, got, merged)
                    (ap (λ k. some (patch (slice (content s) q bs) x (take k b))) count),
                full,
                laid,
              )
          | inl whole ↦
              let count : n ≡ bs = rw (aligned, whole) refl in
              let start : offset / bs * bs ≡ offset = ground arith in
              (
                take bs b,
                rw (aligned, whole, merged) refl,
                length-take b bs (ground arith),
                λ p. ap₂ (λ o k. overlay (content s) o (take k b) p) start (sym count),
              )
        ]
      ]

  -- One round lays the bytes that it moves over the file.
  write_round_lem :
      (s : S) (offset : ℕ) (b : List ℕ)
      → 0 < length b
      → offset < limit
      → (s' : S) × (write_round bs read write s offset b ≡ some s')
        × ((p : ℕ)
            → content s' p ≡ overlay (content s) offset (take (chunk bs offset (length b)) b) p)
  unfolding write_round
  write_round_lem s offset b some_bytes inside =
      let place = div_mod offset bs pos in
      let (m, found, full, laid) = merged_lem s offset b some_bytes inside in
      let (s', done, now) = file.writes s (offset / bs) m (omega arith) full in
      (s', rw (found, write_round) done, λ p. now p ∙ laid p)

  -- The loop of `fs_dirent_write` writes all bytes, if its blocks can be written and the bytes end below
  -- 2 ^ 32, and changes no other byte of the file.
  pub write_loop_lem :
      (fuel : ℕ) (s : S) (offset : ℕ) (b : List ℕ)
      → length b ≤ fuel
      → offset + length b ≤ limit
      → offset + length b < 2 ^ 32
      → (s' : S) × (write_loop bs read write s fuel offset b ≡ (length b, s', false))
        × ((p : ℕ) → content s' p ≡ overlay (content s) offset b p)
  unfolding write_loop
  write_loop_lem zero s offset [] h fits small = (s, refl, λ p. ground arith)
  write_loop_lem zero s offset (c ∷ b) h fits small = absurd (omega arith)
  write_loop_lem (suc fuel) s offset [] h fits small = (s, refl, λ p. ground arith)
  write_loop_lem (suc fuel) s offset (c ∷ b) h fits small =
      let n : ℕ = chunk bs offset (length (c ∷ b)) in
      let bound = chunk_bounds bs offset (length (c ∷ b)) pos (omega arith) in
      let left = length-drop (c ∷ b) n in
      let (s1, round, now) = write_round_lem s offset (c ∷ b) (omega arith) (omega arith) in
      let (s2, loop, after) =
        write_loop_lem fuel s1 (offset + n) (drop n (c ∷ b)) (omega arith) (omega arith)
          (omega arith) in
      let next : (offset + n) % 2 ^ 32 ≡ offset + n = omega (arith, bound.1) in
      let total : n + length (drop n (c ∷ b)) ≡ suc (length b) = omega (arith, bound.1) in
      (
        s2,
        rw (round, next, loop, write_loop) (ap (λ k. (k, s2, false)) total),
        λ p.
            after p
            ∙ ap (λ d. overlay d (offset + n) (drop n (c ∷ b)) p) (fun_ext now)
            ∙ overlay_parts (content s) offset n (c ∷ b) p bound.1,
      )

  -- `fs_dirent_write` writes all bytes at `offset`, says how many they are, and changes no other byte,
  -- if its blocks can be written, resizing changes no byte, and the bytes end below 2 ^ 32.
  pub dirent_write-overlay :
      (resize : S → ℕ → S) (s : S) (size offset : ℕ) (b : List ℕ)
      → ((t : S) (end : ℕ) → content (resize t end) ≡ content t)
      → offset + length b ≤ limit
      → offset + length b < 2 ^ 32
      → (s' : S) × (dirent_write bs (some read) (some write) resize s size offset b
          ≡ (s', bytes (length b)))
        × ((p : ℕ) → content s' p ≡ overlay (content s) offset b p)
  unfolding dirent_write
  dirent_write-overlay resize s size offset b keeps fits small =
      let start : S =
        (if ltb size ((offset + length b) % 2 ^ 32)
          then resize s ((offset + length b) % 2 ^ 32)
          else s) in
      let same : content start ≡ content s =
        elim (Bool-cases (ltb size ((offset + length b) % 2 ^ 32))) [
          | inl longer ↦ rw longer (keeps s _)
          | inr within ↦ rw within refl
        ] in
      let (s', loop, after) = write_loop_lem (length b) start offset b (omega arith) fits small in
      (
        s',
        rw (loop, dirent_write) (ap (λ o. (s', o)) (outcome_fine (length b))),
        λ p. after p ∙ ap (λ d. overlay d offset b p) same,
      )
