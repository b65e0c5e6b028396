-- ===== src/Page.antt =====
-- The physical page allocator of `basekernel/kernel/page.c`: a bit map of free pages at the start
-- of main memory, in 32-bit cells, a set bit for a free page.
pub mod Freemap
pub mod Alloc
pub mod Init
pub mod Hardened
mod Tests
use stage_os.Base.{
  ℕ, zero, suc, ◌+◌, ◌-◌, ◌*◌, ◌/◌, ◌%◌, ◌^◌, Bool, true, false, ◌&&◌, Option, none, some, List, [],
  ◌∷◌, ◌==◌, ltb, leb, if◌then◌else◌, get_or, set, min,
}
use stage_os.Cell.{clear_bit, set_bit, find_bit}

-- `uint32_t`
abbrev pub u32 : ℕ
u32 = 2 ^ 32

abbrev pub page_size : ℕ
page_size = 4096

abbrev pub main_memory_start : ℕ
main_memory_start = 0x200000

-- The statics of page.c. The map is `none` before `page_init`; its length is `freemap_cells`.
-- `memory` holds the bytes of the pages that the map hands out.
-- The pages of the map itself are the first ones, which `page_init` takes for good; their bytes stand in
-- `freemap` and not in `memory`, so that clearing such a page would not be seen.
pub record Pages : Type 0 where
  pub freemap : Option (List ℕ)
  pub pages_free : ℕ
  pub pages_total : ℕ
  pub memory : ℕ → ℕ

-- What a call that should return a page does: an address, the null pointer, or `halt()`, which
-- never returns.
pub data Outcome : Type 0 where
  allocated : ℕ → Outcome
  null : Outcome
  halted : Outcome

-- A cell that the loops have passed stays as it is.
abbrev pub pass_cell : ℕ → Option (ℕ × List ℕ) → Option (ℕ × List ℕ)
pass_cell c none = none
pass_cell c (some (n, cs)) = some (n, c ∷ cs)

-- The two loops of `page_alloc`, from cell `i` on: the first set bit is cleared, and its page
-- number is given with the cells that are left.
pub alloc_scan : ℕ → List ℕ → Option (ℕ × List ℕ)
unfolding find_bit clear_bit
alloc_scan i [] = none
alloc_scan i (c ∷ cs) =
    let later = pass_cell c (alloc_scan (i + 1) cs) in
    if c == 0
    then later
    else elim (find_bit 32 0 c) [ none ↦ later | some j ↦ some (i * 32 + j, clear_bit c j ∷ cs) ]

-- `(pagenumber << PAGE_BITS) + main_memory_start` on 32-bit pointers
abbrev pub page_address : ℕ → ℕ
page_address n = (n * page_size % u32 + main_memory_start) % u32

-- `memset(pageaddr, 0, PAGE_SIZE)`
abbrev pub zero_page : ℕ → (ℕ → ℕ) → ℕ → ℕ
zero_page p memory a = if leb p a && ltb a (p + page_size) then 0 else memory a

-- What `page_alloc` leaves when it hands out page `n`.
abbrev pub handed_out : Bool → Pages → ℕ → List ℕ → Pages
handed_out zeroit s n cells' = record s {
  freemap = some cells';
  pages_free = (s.pages_free + u32 - 1) % u32;
  memory = if zeroit then zero_page (page_address n) s.memory else s.memory;
}

abbrev pub take_page : Bool → Pages → Option (ℕ × List ℕ) → Outcome × Pages
take_page zeroit s none = (halted, s)
take_page zeroit s (some (n, cells')) = (allocated (page_address n), handed_out zeroit s n cells')

-- `page_alloc`
pub page_alloc : Bool → Pages → Outcome × Pages
unfolding alloc_scan
page_alloc zeroit s = elim s.freemap [
  | none ↦ (null, s)
  | some cells ↦ take_page zeroit s (alloc_scan 0 cells)
]

-- `(pageaddr - main_memory_start) >> PAGE_BITS`
abbrev pub page_number : ℕ → ℕ
page_number p = (p + u32 - main_memory_start) % u32 / page_size

-- `freemap[n / CELL_BITS] |= 1 << n % CELL_BITS`
pub mark_free : List ℕ → ℕ → List ℕ
unfolding set_bit
mark_free cells n = set cells (n / 32) (set_bit (get_or cells (n / 32) 0) (n % 32))

-- `page_free`
pub page_free : ℕ → Pages → Pages
unfolding mark_free
page_free p s = elim s.freemap [
  | none ↦ s
  | some cells ↦ record s {
    freemap = some (mark_free cells (page_number p));
    pages_free = (s.pages_free + 1) % u32;
  }
]

-- `page_stats`
pub page_stats : Pages → ℕ × ℕ
page_stats s = (s.pages_free, s.pages_total)

-- The low `b` bytes of a cell become 0xff.
pub fill_bytes : ℕ → ℕ → ℕ
fill_bytes zero c = c
fill_bytes (suc b) c = 255 + 256 * fill_bytes b (c / 256)

-- `memset(freemap, 0xff, bytes)` over the cells that memory held there before.
pub fill_cells : ℕ → List ℕ → List ℕ
unfolding fill_bytes
fill_cells bytes [] = []
fill_cells bytes (c ∷ cs) = fill_bytes (min bytes 4) c ∷ fill_cells (bytes - 4) cs

-- `for(i = 0; i < freemap_pages; i++) page_alloc(0);`
pub reserve : ℕ → Pages → Pages
unfolding page_alloc
reserve zero s = s
reserve (suc k) s = reserve k (page_alloc false s).1

-- `freemap[0] = 0x0`
pub clear_first : Pages → Pages
clear_first s = elim s.freemap [
  | none ↦ s
  | some cells ↦ record s { freemap = some (set cells 0 0) }
]

-- `page_init`, for 2 <= total_memory < 2048 (in MB), where no sum leaves its type. `ram` is what the
-- cells of the map held before; it has `freemap_cells` of them.
pub pages_of : ℕ → ℕ
pages_of total_memory = (total_memory * 1024 * 1024 - main_memory_start) / page_size

-- The state in which `page_init` reserves the pages of the map.
pub start : ℕ → List ℕ → Pages → Pages
unfolding pages_of fill_cells
start total_memory ram s =
    let total : ℕ = pages_of total_memory in
    record s {
      freemap = some (fill_cells (1 + total / 8) ram);
      pages_free = total;
      pages_total = total;
    }

pub page_init : ℕ → List ℕ → Pages → Pages
unfolding start pages_of reserve clear_first
page_init total_memory ram s =
    clear_first
      (reserve (1 + (1 + pages_of total_memory / 8) / page_size) (start total_memory ram s))
