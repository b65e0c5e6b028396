-- ===== src/PageTable/View.antt =====
-- What a page table of `basekernel/kernel/pagetable.c` maps, as a function of the number of a page, and
-- when it is well formed.
use stage_os.Base.{
  ℕ, ◌/◌, ◌%◌, ◌^◌, ◌≡◌, ◌≢◌, refl, Bool, true, false, ◌||◌, Option, none, some, ◌==◌,
  if◌then◌else◌, arith,
}
use stage_os.PageTable.{Memory, Flags, getmap, mapping}

-- An allocator: `used` tells which pages are handed out. A page that is given was not.
pub record Allocator {H : Type 0} (page_alloc : H → Option (ℕ × H)) (used : H → ℕ → Bool)
    : Type 0 where
  pub fresh : (h h' : H) (q : ℕ) → page_alloc h ≡ some (q, h') → used h q ≡ false
  pub taken : (h h' : H) (q n : ℕ) → page_alloc h ≡ some (q, h') → used h' n ≡ (n == q || used h n)

-- The directory and its tables are pages in use, and no two entries lead to one page.
pub record IsTable {H : Type 0} (used : H → ℕ → Bool) (m : Memory H) (p : ℕ) : Type 0 where
  pub root : used m.heap p ≡ true
  pub tables : (d : ℕ) → (m.entry p d).present ≡ true → used m.heap (m.entry p d).addr ≡ true
  pub apart : (d : ℕ) → (m.entry p d).present ≡ true → (m.entry p d).addr ≢ p
  pub distinct :
      (d d' : ℕ)
      → (m.entry p d).present ≡ true
      → (m.entry p d').present ≡ true
      → (m.entry p d).addr ≡ (m.entry p d').addr
      → d ≡ d'

-- The mapping of page `v`
unfoldable pub view : {H : Type 0} → Memory H → (p v : ℕ) → Option (ℕ × Flags)
view m p v =
    let e = m.entry p (v / 1024) in if e.present then mapping (m.entry e.addr (v % 1024)) else none

-- `pagetable_getmap` reads it at the page of the address.
pub getmap-view :
    {H : Type 0} (m : Memory H) (p vaddr : ℕ) → getmap m p vaddr ≡ view m p (vaddr / 4096)
unfolding getmap view
getmap-view m p vaddr = let d : vaddr / 2 ^ 22 ≡ vaddr / 4096 / 1024 = omega arith in rw d refl
