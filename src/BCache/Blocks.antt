-- ===== src/BCache/Blocks.antt =====
-- `bcache_write` and `bcache_read` of `basekernel/kernel/bcache.c` on several blocks.
use stage_os.Base.{
  ℕ, suc, ◌<◌, ◌≡◌, ◌∙◌, refl, ap, Bool, true, false, ◌&&◌, some, List, [], ◌∷◌, ◌==◌,
  if◌then◌else◌, length, arith,
}
use stage_os.BCache.{Devices, Cache, read_block, write_block, read, write}
use stage_os.BCache.View.{KeepsBlocks}
use stage_os.BCache.Refine.{shown, IsValid}
use stage_os.BCache.Read.{read_block-Fetched}
use stage_os.BCache.Write.{write_block-Written}

-- The blocks of a device from block `b` on, as many as there are contents, can be written.
abbrev pub AllWritable {ℓ} : {B : Type ℓ} → (ℕ → ℕ → Bool) → (dv b : ℕ) → List B → Type 0
AllWritable writable dv b [] = Unit {0}
AllWritable writable dv b (x ∷ xs) = (writable dv b ≡ true) × AllWritable writable dv (suc b) xs

module _ {ℓ ℓ'} {D : Type ℓ} {B : Type ℓ'} (io : Devices D B) where
  -- The blocks of a device from block `b` on are shown with these contents.
  abbrev pub Shows : Cache D B → (dv b : ℕ) → List B → Type ℓ'
  Shows c dv b [] = Unit {ℓ'}
  Shows c dv b (x ∷ xs) = (shown io c dv b ≡ some x) × Shows c dv (suc b) xs

  Shows-same :
      (c c' : Cache D B) (dv b : ℕ) (xs : List B)
      → ((dv' b' : ℕ) → shown io c' dv' b' ≡ shown io c dv' b')
      → Shows c dv b xs
      → Shows c' dv b xs
  Shows-same c c' dv b [] h s = tt
  Shows-same c c' dv b (x ∷ xs) h s = (h dv b ∙ s.0, Shows-same c c' dv (suc b) xs h s.1)

  read-Shows :
      {writable : ℕ → ℕ → Bool} (laws : KeepsBlocks io writable) (cleared : B) (left : ℕ → Bool)
      (dv b : ℕ) (xs : List B) (c : Cache D B)
      → IsValid io writable c
      → Shows c dv b xs
      → (read io cleared left dv (length xs) b c).0 ≡ xs
  unfolding read
  read-Shows laws cleared left dv b [] c v s = refl
  read-Shows laws cleared left dv b (x ∷ xs) c v s =
      let f = read_block-Fetched io laws cleared (left b) dv b c v in
      let r = read_block io cleared (left b) dv b c in
      rw (f.value ∙ s.0, read)
        (ap (λ l. x ∷ l)
          (read-Shows laws cleared left dv (suc b) xs r.1 f.valid
            (Shows-same c r.1 dv (suc b) xs f.same s.1)))

  -- A write keeps the blocks before it.
  write-before :
      {writable : ℕ → ℕ → Bool} (laws : KeepsBlocks io writable) (cleared : B) (left : ℕ → Bool)
      (dv b b' : ℕ) (xs : List B) (c : Cache D B)
      → AllWritable writable dv b xs
      → IsValid io writable c
      → b' < b
      → shown io (write io cleared left dv b xs c) dv b' ≡ shown io c dv b'
  unfolding write
  write-before laws cleared left dv b b' [] c can v h = refl
  write-before laws cleared left dv b b' (x ∷ xs) c can v h =
      let w = write_block-Written io laws cleared (left b) dv b x c can.0 v in
      let c' = write_block io cleared (left b) dv b x c in
      let other : (dv == dv && b == b') ≡ false = ground arith in
      write-before laws cleared left dv (suc b) b' xs c' can.1 w.valid (omega arith)
      ∙ w.now dv b'
      ∙ ap (λ t. if t then some x else shown io c dv b') other

  write-Shows :
      {writable : ℕ → ℕ → Bool} (laws : KeepsBlocks io writable) (cleared : B) (left : ℕ → Bool)
      (dv b : ℕ) (xs : List B) (c : Cache D B)
      → AllWritable writable dv b xs
      → IsValid io writable c
      → IsValid io writable (write io cleared left dv b xs c)
        × Shows (write io cleared left dv b xs c) dv b xs
  unfolding write
  write-Shows laws cleared left dv b [] c can v = (v, tt)
  write-Shows laws cleared left dv b (x ∷ xs) c can v =
      let w = write_block-Written io laws cleared (left b) dv b x c can.0 v in
      let c' = write_block io cleared (left b) dv b x c in
      let here : (dv == dv && b == b) ≡ true = ground arith in
      let rest = write-Shows laws cleared left dv (suc b) xs c' can.1 w.valid in
      (
        rest.0,
        (
          write-before laws cleared left dv (suc b) b xs c' can.1 w.valid (omega arith)
              ∙ w.now dv b
              ∙ ap (λ t. if t then some x else shown io c dv b) here,
          rest.1,
        ),
      )

  -- Writable blocks that were written to a valid cache are what a read of as many blocks from the same
  -- place then returns, whatever has been written back or has left the cache in between. Devices may
  -- refuse to write other blocks.
  pub read_back :
      {writable : ℕ → ℕ → Bool} (laws : KeepsBlocks io writable) (cleared : B)
      (left left' : ℕ → Bool) (dv b : ℕ) (xs : List B) (c : Cache D B)
      → AllWritable writable dv b xs
      → IsValid io writable c
      → (read io cleared left' dv (length xs) b (write io cleared left dv b xs c)).0 ≡ xs
  read_back laws cleared left left' dv b xs c can v =
      let w = write-Shows laws cleared left dv b xs c can v in
      read-Shows laws cleared left' dv b xs (write io cleared left dv b xs c) w.0 w.1
