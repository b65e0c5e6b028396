-- ===== src/PageTable.antt =====
-- `basekernel/kernel/pagetable.c`: two levels of tables of 1024 entries. A page is named by its number,
-- its address divided by 4096, and an address is a 32-bit word. The page allocator is a parameter: its
-- state, `page_alloc` and `page_free`. The null pointers that the functions log and refuse are left out.
pub mod Walk
pub mod View
pub mod Entries
pub mod Map
pub mod Getmap
mod Tests
use stage_os.Base.{
  ℕ, zero, suc, ◌+◌, ◌-◌, ◌*◌, ◌/◌, ◌%◌, ◌^◌, Bool, true, false, ◌&&◌, not, Option, none, some,
  ◌==◌, if◌then◌else◌,
}

-- `struct pageentry`; the bits that are always cleared are left out, and of `avail` one bit is used.
pub record Entry : Type 0 where
  pub present : Bool
  pub readwrite : Bool
  pub user : Bool
  pub globalpage : Bool
  pub avail : Bool
  pub addr : ℕ

-- The entry of a page of zeros
abbrev pub absent : Entry
absent = record {
  present = false;
  readwrite = false;
  user = false;
  globalpage = false;
  avail = false;
  addr = 0;
}

-- The flags `PAGE_FLAG_KERNEL`, `PAGE_FLAG_READWRITE`, `PAGE_FLAG_ALLOC` and `PAGE_FLAG_CLEAR`
pub record Flags : Type 0 where
  pub kernel : Bool
  pub writable : Bool
  pub alloc : Bool
  pub clear : Bool

-- The allocator and the pages read as tables
pub record Memory (H : Type 0) : Type 0 where
  pub heap : H
  pub entry : ℕ → ℕ → Entry

-- The two indices of an address
abbrev pub dir_index : ℕ → ℕ
dir_index vaddr = vaddr / 2 ^ 22

abbrev pub table_index : ℕ → ℕ
table_index vaddr = vaddr / 2 ^ 12 % 1024

-- What `pagetable_getmap` tells of an entry: the address, and the flags
abbrev pub mapping : Entry → Option (ℕ × Flags)
mapping e =
    if e.present
    then some (
      e.addr * 2 ^ 12,
      record { kernel = not e.user; writable = e.readwrite; alloc = e.avail; clear = false },
    )
    else none

-- The entry of a table in the directory
abbrev pub dir_entry : Flags → ℕ → Entry
dir_entry flags q = record {
  present = true;
  readwrite = true;
  user = not flags.kernel;
  globalpage = flags.kernel;
  avail = false;
  addr = q;
}

-- The entry of a page
abbrev pub page_entry : Flags → ℕ → Entry
page_entry flags page = record {
  present = true;
  readwrite = flags.writable;
  user = not flags.kernel;
  globalpage = flags.kernel;
  avail = flags.alloc;
  addr = page;
}

-- The number of pages that a length takes
abbrev pub pages_for : ℕ → ℕ
pages_for n = if n % 4096 == 0 then n / 4096 else n / 4096 + 1

module _ {H : Type 0} where
  abbrev pub set_entry : Memory H → ℕ → ℕ → Entry → Memory H
  set_entry m q i e = record m {
    entry = λ q' i'. if q' == q then (if i' == i then e else m.entry q' i') else m.entry q' i';
  }

  -- A page of zeros
  abbrev pub zero_table : Memory H → ℕ → Memory H
  zero_table m q = record m { entry = λ q' i. if q' == q then absent else m.entry q' i }

  -- `pagetable_getmap` of the table `p`
  unfoldable pub getmap : Memory H → (p vaddr : ℕ) → Option (ℕ × Flags)
  getmap m p vaddr =
      let e = m.entry p (dir_index vaddr) in
      if e.present then mapping (m.entry e.addr (table_index vaddr)) else none

  -- `pagetable_unmap`
  unfoldable pub unmap : Memory H → (p vaddr : ℕ) → Memory H
  unmap m p vaddr =
      let e = m.entry p (dir_index vaddr) in
      let last = m.entry e.addr (table_index vaddr) in
      if e.present
      then set_entry m e.addr (table_index vaddr) (record last { present = false })
      else m

  module _ (page_alloc : H → Option (ℕ × H)) (page_free : H → ℕ → H) where
    -- `page_alloc` with its flag to clear the page
    abbrev pub alloc_page : Memory H → (clear : Bool) → Option (ℕ × Memory H)
    alloc_page m clear = elim (page_alloc m.heap) [
      | none ↦ none
      | some r ↦
          let m' : Memory H = record m { heap = r.1 } in
          some (r.0, if clear then zero_table m' r.0 else m')
    ]

    -- `pagetable_create`
    abbrev pub create : Memory H → Option (ℕ × Memory H)
    create m = alloc_page m true

    -- The page that is mapped: a new one where `PAGE_FLAG_ALLOC` is given
    unfoldable pub pick : Memory H → (paddr : ℕ) → Flags → Option (ℕ × Memory H)
    pick m paddr flags = if flags.alloc then alloc_page m flags.clear else some (paddr / 2 ^ 12, m)

    -- The table of an address, created if there is none
    unfoldable pub walk : Memory H → (p vaddr : ℕ) → Flags → Option (ℕ × Memory H)
    walk m p vaddr flags =
        let made : Option (ℕ × Memory H) = elim (create m) [
          | none ↦ none
          | some r ↦ some (r.0, set_entry r.1 p (dir_index vaddr) (dir_entry flags r.0))
        ] in
        if (m.entry p (dir_index vaddr)).present
        then some ((m.entry p (dir_index vaddr)).addr, m)
        else made

    -- `pagetable_map`: whether it succeeds, and the memory. A page that was allocated is freed again
    -- where the table cannot be created.
    unfoldable pub map_page : Memory H → (p vaddr paddr : ℕ) → Flags → Bool × Memory H
    map_page m p vaddr paddr flags = elim (pick m paddr flags) [
      | none ↦ (false, m)
      | some r ↦ elim (walk r.1 p vaddr flags) [
        | none ↦
            (false, if flags.alloc then record (r.1) { heap = page_free r.1.heap r.0 } else r.1)
        | some w ↦ (true, set_entry w.1 w.0 (table_index vaddr) (page_entry flags r.0))
      ]
    ]

    -- The loop of `pagetable_alloc`, over `npages` pages from `vaddr` on; a failure is only logged.
    unfoldable pub alloc_loop : Memory H → (p vaddr : ℕ) → Flags → (npages : ℕ) → Memory H
    alloc_loop m p vaddr flags zero = m
    alloc_loop m p vaddr flags (suc npages) =
        let next : Memory H = elim (getmap m p vaddr) [
          | some r ↦ m
          | none ↦ (map_page m p vaddr 0 (record flags { alloc = true })).1
        ] in
        alloc_loop next p ((vaddr + 4096) % 2 ^ 32) flags npages

    -- `pagetable_alloc`
    unfoldable pub alloc_range : Memory H → (p vaddr length : ℕ) → Flags → Memory H
    alloc_range m p vaddr n flags = alloc_loop m p (vaddr / 4096 * 4096) flags (pages_for n)

    -- The loop of `pagetable_free`
    unfoldable pub free_loop : Memory H → (p vaddr npages : ℕ) → Memory H
    free_loop m p vaddr zero = m
    free_loop m p vaddr (suc npages) =
        let next : Memory H = elim (getmap m p vaddr) [
          | none ↦ m
          | some r ↦
              let m' = unmap m p vaddr in
              if r.1.alloc then record m' { heap = page_free m'.heap (r.0 / 2 ^ 12) } else m'
        ] in
        free_loop next p ((vaddr + 4096) % 2 ^ 32) npages

    -- `pagetable_free`
    unfoldable pub free_range : Memory H → (p vaddr length : ℕ) → Memory H
    free_range m p vaddr n = free_loop m p (vaddr / 4096 * 4096) (pages_for n)

    -- The inner loop of `pagetable_delete`, over `n` entries of table `q` from entry `j` on
    unfoldable pub delete_pages : Memory H → (q n j : ℕ) → Memory H
    delete_pages m q zero j = m
    delete_pages m q (suc n) j =
        let e = m.entry q j in
        delete_pages
          (if e.present && e.avail then record m { heap = page_free m.heap e.addr } else m) q n
          (j + 1)

    -- Its outer loop, over the directory `p`
    unfoldable pub delete_tables : Memory H → (p n i : ℕ) → Memory H
    delete_tables m p zero i = m
    delete_tables m p (suc n) i =
        let e = m.entry p i in
        let m' = delete_pages m e.addr 1024 0 in
        delete_tables (if e.present then record m' { heap = page_free m'.heap e.addr } else m) p n
          (i + 1)

    -- `pagetable_delete`
    unfoldable pub delete : Memory H → ℕ → Memory H
    delete m p = let m' = delete_tables m p 1024 0 in record m' { heap = page_free m'.heap p }
