-- ===== src/BCache/View.antt =====
-- The blocks that the cache of `basekernel/kernel/bcache.c` shows: what its clients read, whether it
-- is cached or on a device.
use stage_os.Base.{
  ℕ, ◌≡◌, Bool, true, false, ◌&&◌, Option, some, List, [], ◌∷◌, ◌==◌, if◌then◌else◌,
}
use stage_os.BCache.{Devices, Entry, is_at}

module _ {ℓ} {B : Type ℓ} where
  -- No entry is for the block.
  abbrev pub Absent : ℕ → ℕ → List (Entry B) → Type 0
  Absent dv b [] = Unit {0}
  Absent dv b (e ∷ es) = (is_at dv b e ≡ false) × Absent dv b es

  -- No two entries are for the same block.
  abbrev pub Distinct : List (Entry B) → Type 0
  Distinct [] = Unit {0}
  Distinct (e ∷ es) = Absent e.device e.block es × Distinct es

module _ {ℓ ℓ'} {D : Type ℓ} {B : Type ℓ'} (io : Devices D B) where
  unfoldable pub view : List (Entry B) → D → ℕ → ℕ → Option B
  view [] d dv b = io.read_block d dv b
  view (e ∷ es) d dv b = if is_at dv b e then some e.content else view es d dv b

module _ {ℓ ℓ'} {D : Type ℓ} {B : Type ℓ'} (io : Devices D B) (writable : ℕ → ℕ → Bool) where
  -- What an entry holds is on the device, if the entry is not dirty or its block cannot be written.
  abbrev pub IsBacked : D → Entry B → Type ℓ'
  IsBacked d e =
      (e.dirty && writable e.device e.block) ≡ false
      → io.read_block d e.device e.block ≡ some e.content

  abbrev pub AllBacked : D → List (Entry B) → Type ℓ'
  AllBacked d [] = Unit {ℓ'}
  AllBacked d (e ∷ es) = IsBacked d e × AllBacked d es

-- What the devices do with a block that is written: a writable block is written and then read again, a
-- write that fails leaves what was there, and no write changes another block.
pub record KeepsBlocks {ℓ ℓ'} {D : Type ℓ} {B : Type ℓ'} (io : Devices D B)
    (writable : ℕ → ℕ → Bool) : Type (ℓ ⊔ ℓ') where
  pub accepts :
      (d : D) (dv b : ℕ) (x : B) → writable dv b ≡ true → (io.write_block d dv b x).1 ≡ true
  pub read_same :
      (d : D) (dv b : ℕ) (x : B)
      → (io.write_block d dv b x).1 ≡ true
      → io.read_block (io.write_block d dv b x).0 dv b ≡ some x
  pub refuses :
      (d : D) (dv b : ℕ) (x : B)
      → (io.write_block d dv b x).1 ≡ false
      → io.read_block (io.write_block d dv b x).0 dv b ≡ io.read_block d dv b
  pub read_other :
      (d : D) (dv b dv' b' : ℕ) (x : B)
      → (dv == dv' && b == b') ≡ false
      → io.read_block (io.write_block d dv b x).0 dv' b' ≡ io.read_block d dv' b'
