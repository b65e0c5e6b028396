-- ===== src/Page/Hardened.antt =====
-- The second version of the allocator, `New Memory management/page.c`, with its bound checks and
-- its guard pattern, and `memcmp` of `New Memory management/string.c`.
pub mod Laws
use stage_os.Base.{
  ℕ, zero, suc, ◌+◌, ◌-◌, ◌*◌, ◌/◌, ◌%◌, Bool, true, false, not, ◌&&◌, ◌||◌, Option, none, some,
  List, ◌==◌, ltb, leb, if◌then◌else◌, get_or,
}
use stage_os.Cell.{test_bit}
use stage_os.Page.{
  u32, page_size, main_memory_start, Pages, Outcome, allocated, null, halted, alloc_scan,
  page_address, handed_out, mark_free, page_init as first_page_init, pages_of, start, clear_first,
}

-- `is_memory_initialized`
pub is_memory_initialized : Pages → Bool
is_memory_initialized s = elim s.freemap [ none ↦ false | some _ ↦ true ]

-- `memcmp` returns -1 or 1 at the first difference. At equal bytes it runs off its end: `undefined`
-- is what the caller then reads as its result.
pub memcmp : ℕ → (ℕ → ℕ) → ℕ → (ℕ → ℕ) → ℕ → ℕ
memcmp undefined d i s zero = undefined
memcmp undefined d i s (suc length) =
    let rest = memcmp undefined d (i + 1) s length in
    if d i == s i then rest else if ltb (d i) (s i) then u32 - 1 else 1

-- The bytes of `guard_pattern_bytes`, 0xDEADBEEF in memory order.
abbrev pub guard_byte : ℕ → ℕ
guard_byte zero = 0xEF
guard_byte (suc zero) = 0xBE
guard_byte (suc (suc zero)) = 0xAD
guard_byte (suc (suc (suc i))) = 0xDE

-- `memcmp(pageaddr, &guard_pattern_bytes, 4) == 0`
pub is_guarded : ℕ → Pages → ℕ → Bool
unfolding memcmp
is_guarded undefined s p = memcmp undefined (λ i. s.memory (p + i)) 0 guard_byte 4 == 0

-- What follows the search of `page_alloc`. The bit is cleared before the checks.
pub check_page : ℕ → Bool → Pages → Option (ℕ × List ℕ) → Outcome × Pages
check_page undefined zeroit s none = (null, s)
check_page undefined zeroit s (some (n, cells')) =
    if leb s.pages_total n
    then (null, record s { freemap = some cells' })
    else if is_guarded undefined s (page_address n)
    then (null, record s { freemap = some cells' })
    else (allocated (page_address n), handed_out zeroit s n cells')

-- `page_alloc`
unfoldable pub page_alloc : ℕ → Bool → Pages → Outcome × Pages
unfolding alloc_scan check_page is_guarded
page_alloc undefined zeroit s = elim s.freemap [
  | none ↦ (null, s)
  | some cells ↦
      if s.pages_free == 0 then (null, s) else check_page undefined zeroit s (alloc_scan 0 cells)
]

-- `freemap[cellnumber] & cellmask`
pub bit_of : List ℕ → ℕ → Bool
unfolding test_bit
bit_of cells n = test_bit (get_or cells (n / 32) 0) (n % 32)

-- `page_free`, with `page_offset` on 32-bit pointers; the guard check behind it only logs.
pub page_free : ℕ → Pages → Pages
unfolding mark_free bit_of
page_free p s = elim s.freemap [
  | none ↦ s
  | some cells ↦
      let offset = (p + u32 - main_memory_start) % u32 in
      let n = offset / page_size in
      if p == 0
      then s
      else if not (offset % page_size == 0) || leb (s.pages_total * page_size % u32) offset
      then s
      else if not (bit_of cells n)
      then s
      else record s { freemap = some (mark_free cells n); pages_free = (s.pages_free + 1) % u32 }
]

-- `page_stats`
pub page_stats : Pages → ℕ × ℕ
unfolding is_memory_initialized
page_stats s = if is_memory_initialized s then (s.pages_free, s.pages_total) else (0, 0)

-- The loop of `page_init`; a page that cannot be had stops the machine, `none`.
pub reserve : ℕ → ℕ → Pages → Option Pages
unfolding page_alloc
reserve undefined zero s = some s
reserve undefined (suc k) s =
    let (o, s') = page_alloc undefined false s in
    elim o [ allocated p ↦ reserve undefined k s' | _ ↦ none ]

-- `page_init`, which does nothing the second time; for 2 <= total_memory < 2048.
pub page_init : ℕ → ℕ → List ℕ → Pages → Option Pages
unfolding is_memory_initialized start reserve clear_first pages_of
page_init undefined total_memory ram s =
    if is_memory_initialized s
    then some s
    else elim (reserve undefined (1 + (1 + pages_of total_memory / 8) / page_size)
        (start total_memory ram s)) [ none ↦ none | some s' ↦ some (clear_first s') ]
