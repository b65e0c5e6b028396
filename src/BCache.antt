-- ===== src/BCache.antt =====
-- The block cache of `basekernel/kernel/bcache.c`, in front of the devices. The devices are an
-- interface: what `device_read` and `device_write` of one block do to them.
pub mod View
pub mod Trim
pub mod Refine
pub mod Read
pub mod Write
pub mod Blocks
pub mod Flush
mod Tests
use stage_os.Base.{
  ℕ, zero, suc, ◌+◌, ◌-◌, ◌*◌, ◌%◌, ◌^◌, Bool, true, false, not, ◌&&◌, ◌||◌, Option, none, some,
  List, [], ◌∷◌, ◌++◌, ◌==◌, ltb, leb, if◌then◌else◌, length,
}

-- The contents of the devices. `read_block` is `none` where `device_read` fails; `write_block` gives the
-- devices afterwards, and whether `device_write` succeeded.
pub record Devices {ℓ ℓ'} (D : Type ℓ) (B : Type ℓ') : Type (ℓ ⊔ ℓ') where
  pub read_block : D → (device block : ℕ) → Option B
  pub write_block : D → (device block : ℕ) → B → D × Bool

-- `struct bcache_entry`
pub record Entry {ℓ} (B : Type ℓ) : Type ℓ where
  pub device : ℕ
  pub block : ℕ
  pub dirty : Bool
  pub content : B

-- `struct bcache_stats`
pub record Stats : Type 0 where
  pub read_hits : ℕ
  pub read_misses : ℕ
  pub write_hits : ℕ
  pub write_misses : ℕ
  pub writebacks : ℕ

-- The statics of bcache.c, the entry at the head of the list first, and the devices
pub record Cache {ℓ ℓ'} (D : Type ℓ) (B : Type ℓ') : Type (ℓ ⊔ ℓ') where
  pub entries : List (Entry B)
  pub stats : Stats
  pub disk : D

abbrev pub max_cache_size : ℕ
max_cache_size = 100

module _ {ℓ} {B : Type ℓ} where
  -- `list_pop_tail`: the rest of the list and its last entry
  pub pop_tail : Entry B → List (Entry B) → List (Entry B) × Entry B
  pop_tail e [] = ([], e)
  pop_tail e (f ∷ es) = let r = pop_tail f es in (e ∷ r.0, r.1)

  abbrev pub is_at : ℕ → ℕ → Entry B → Bool
  is_at device block e = e.device == device && e.block == block

  -- `bcache_find`
  pub find : ℕ → ℕ → List (Entry B) → Option (Entry B)
  find device block [] = none
  find device block (e ∷ es) =
      let later = find device block es in if is_at device block e then some e else later

  -- An assignment to the entry that `bcache_find` gives
  pub change : ℕ → ℕ → (Entry B → Entry B) → List (Entry B) → List (Entry B)
  change device block f [] = []
  change device block f (e ∷ es) =
      let later = change device block f es in if is_at device block e then f e ∷ es else e ∷ later

  -- `list_remove` of that entry
  pub list_remove : ℕ → ℕ → List (Entry B) → List (Entry B)
  list_remove device block [] = []
  list_remove device block (e ∷ es) =
      let later = list_remove device block es in if is_at device block e then es else e ∷ later

  abbrev pub content_of : Option (Entry B) → Option B
  content_of none = none
  content_of (some e) = some e.content

module _ {ℓ ℓ'} {D : Type ℓ} {B : Type ℓ'} (io : Devices D B) where
  -- `bcache_entry_clean`: the entry, the devices and the count of writebacks afterwards. Whether the
  -- write succeeded is not looked at: the entry counts as clean in any case.
  pub entry_clean : Entry B → D → ℕ → Entry B × D × ℕ
  entry_clean e d n =
      if e.dirty
      then (record e { dirty = false }, (io.write_block d e.device e.block e.content).0, suc n)
      else (e, d, n)

  -- The loop of `bcache_trim`. A round takes one entry away, so as many rounds as there are entries
  -- are enough.
  pub trim_loop : ℕ → List (Entry B) → D → ℕ → List (Entry B) × D × ℕ
  unfolding entry_clean pop_tail
  trim_loop zero es d n = (es, d, n)
  trim_loop (suc rounds) [] d n = ([], d, n)
  trim_loop (suc rounds) (e ∷ es) d n =
      let r = pop_tail e es in
      let c = entry_clean r.1 d n in
      let later = trim_loop rounds r.0 c.1 c.2 in
      if ltb max_cache_size (length (e ∷ es)) then later else (e ∷ es, d, n)

  -- `bcache_trim`
  pub trim : Cache D B → Cache D B
  unfolding trim_loop
  trim c =
      let r = trim_loop (length c.entries) c.entries c.disk c.stats.writebacks in
      record c { entries = r.0; disk = r.1; stats = record c.stats { writebacks = r.2 } }

  -- `bcache_find_or_create`. A new entry holds a cleared page, and what `kmalloc` left for its dirty
  -- flag.
  pub find_or_create : (cleared : B) (left : Bool) → ℕ → ℕ → Cache D B → Bool × Cache D B
  unfolding trim find
  find_or_create cleared left device block c = elim (find device block c.entries) [
    | some e ↦ (true, trim c)
    | none ↦
        let new : Entry B = record {
          device = device;
          block = block;
          dirty = left;
          content = cleared;
        } in
        (false, trim (record c { entries = new ∷ c.entries }))
  ]

  -- `bcache_read_block`, where memory is not short: the block, or `none` where the device fails
  pub read_block : (cleared : B) (left : Bool) → ℕ → ℕ → Cache D B → Option B × Cache D B
  unfolding find_or_create change list_remove
  read_block cleared left device block c =
      let r = find_or_create cleared left device block c in
      let c' : Cache D B = r.1 in
      let st = c'.stats in
      let missed : Cache D B = record c' {
        stats = record st { read_misses = suc st.read_misses };
      } in
      if r.0
      then (
        content_of (find device block c'.entries),
        record c' { stats = record st { read_hits = suc st.read_hits } },
      )
      else elim (io.read_block c'.disk device block) [
        | some b ↦ (
          some b,
          record missed {
            entries = change device block (λ e. record e { content = b }) c'.entries;
          },
        )
        | none ↦ (none, record missed { entries = list_remove device block c'.entries })
      ]

  -- `bcache_write_block`, where memory is not short; it returns 1.
  pub write_block : (cleared : B) (left : Bool) → ℕ → ℕ → B → Cache D B → Cache D B
  unfolding find_or_create change
  write_block cleared left device block b c =
      let r = find_or_create cleared left device block c in
      let c' : Cache D B = r.1 in
      let st = c'.stats in
      let counted : Stats =
        if r.0
        then record st { write_hits = suc st.write_hits }
        else record st { write_misses = suc st.write_misses } in
      record c' {
        stats = counted;
        entries = change device block (λ e. record e { dirty = true; content = b }) c'.entries;
      }

  -- The loop of `bcache_flush_all`
  pub clean_all : List (Entry B) → D → ℕ → List (Entry B) × D × ℕ
  unfolding entry_clean
  clean_all [] d n = ([], d, n)
  clean_all (e ∷ es) d n =
      let c = entry_clean e d n in let r = clean_all es c.1 c.2 in (c.0 ∷ r.0, r.1, r.2)

  -- `bcache_flush_all`
  pub flush_all : Cache D B → Cache D B
  unfolding clean_all
  flush_all c =
      let r = clean_all c.entries c.disk c.stats.writebacks in
      record c { entries = r.0; disk = r.1; stats = record c.stats { writebacks = r.2 } }

  -- The loop of `bcache_flush_device`
  pub clean_device : ℕ → List (Entry B) → D → ℕ → List (Entry B) × D × ℕ
  unfolding entry_clean
  clean_device device [] d n = ([], d, n)
  clean_device device (e ∷ es) d n =
      let c = entry_clean e d n in
      let r = clean_device device es c.1 c.2 in
      let s = clean_device device es d n in
      if e.device == device then (c.0 ∷ r.0, r.1, r.2) else (e ∷ s.0, s.1, s.2)

  -- `bcache_flush_device`
  pub flush_device : ℕ → Cache D B → Cache D B
  unfolding clean_device
  flush_device device c =
      let r = clean_device device c.entries c.disk c.stats.writebacks in
      record c { entries = r.0; disk = r.1; stats = record c.stats { writebacks = r.2 } }

  -- `bcache_flush_block`
  pub flush_block : ℕ → ℕ → Cache D B → Cache D B
  unfolding entry_clean find change
  flush_block device block c = elim (find device block c.entries) [
    | none ↦ c
    | some e ↦
        let r = entry_clean e c.disk c.stats.writebacks in
        record c {
          entries = change device block (λ f. r.0) c.entries;
          disk = r.1;
          stats = record c.stats { writebacks = r.2 };
        }
  ]

  -- The loop of `bcache_read` from block `block` on, up to the first failure; `left` is what `kmalloc`
  -- left for the dirty flag of an entry for each block.
  pub read :
      (cleared : B) (left : ℕ → Bool) (device blocks block : ℕ) → Cache D B → List B × Cache D B
  unfolding read_block
  read cleared left device zero block c = ([], c)
  read cleared left device (suc n) block c =
      let r = read_block cleared (left block) device block c in
      let later = read cleared left device n (suc block) r.1 in
      elim r.0 [ none ↦ ([], r.1) | some x ↦ (x ∷ later.0, later.1) ]

  -- The loop of `bcache_write`
  pub write : (cleared : B) (left : ℕ → Bool) (device block : ℕ) → List B → Cache D B → Cache D B
  unfolding write_block
  write cleared left device block [] c = c
  write cleared left device block (x ∷ xs) c =
      write cleared left device (suc block) xs (write_block cleared (left block) device block x c)
