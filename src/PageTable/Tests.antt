-- ===== src/PageTable/Tests.antt =====
-- Runs of `basekernel/kernel/pagetable.c` with an allocator that counts pages, and the theorems there.
use stage_os.Base.{
  ℕ, ◌+◌, ◌≡◌, ◌≢◌, refl, ap, sym, ◌∙◌, Bool, true, false, ◌||◌, Option, some, ◌==◌, ltb, arith,
}
use stage_os.PageTable.{
  absent, Memory, Flags, map_page, unmap, getmap, pick, walk, alloc_range, alloc_loop, free_range,
  free_loop, delete_pages, delete_tables, delete,
}
use stage_os.PageTable.View.{Allocator, IsTable}
use stage_os.PageTable.Map.{Maps, map_page-view}

-- Pages 0 to n - 1 are in use; freeing does nothing.
abbrev next_page : ℕ → Option (ℕ × ℕ)
next_page n = some (n, n + 1)

abbrev keep : ℕ → ℕ → ℕ
keep n page = n

abbrev used : ℕ → ℕ → Bool
used n page = ltb page n

used-suc : (n k : ℕ) → used (n + 1) k ≡ (k == n || used n k)
used-suc n k = ground arith

given : (h h' q : ℕ) → next_page h ≡ some (q, h') → (q ≡ h) × (h' ≡ h + 1)
given h h' q e = (cc, cc)

counts : Allocator next_page used
counts = record {
  fresh = λ h h' q e. let g = (given h h' q e).0 in ground arith;
  taken = λ h h' q n e.
      let g = given h h' q e in
      ap (λ k. used k n) g.1 ∙ used-suc h n ∙ ap (λ k. n == k || used h n) (sym g.0);
}

-- An empty directory in page 0
abbrev empty : Memory ℕ
empty = record { heap = 1; entry = λ q i. absent }

empty-IsTable : IsTable used empty 0
empty-IsTable = record {
  root = refl;
  tables = λ d e. absurd (not_present e);
  apart = λ d e. absurd (not_present e);
  distinct = λ d d' e f s. absurd (not_present e);
}
  where
    not_present : false ≢ true
    not_present e = cc

abbrev user_page : Flags
user_page = record { kernel = false; writable = true; alloc = false; clear = false }

maps :
    getmap (map_page next_page keep empty 0 0x80001000 0x5000 user_page).1 0 0x80001234
    ≡ some (0x5000, user_page)
unfolding getmap map_page pick walk
maps = refl

-- Two pages are allocated and freed again; the table stays.
allocates :
    getmap (alloc_range next_page keep empty 0 0x80001000 5000 user_page) 0 0x80002000
    ≡ some (0x3000, record user_page { alloc = true })
unfolding getmap alloc_range alloc_loop map_page pick walk
allocates = refl

abbrev stack : ℕ → ℕ → ℕ
stack n page = n + 100

frees :
    (free_range next_page stack
      (alloc_range next_page stack empty 0 0x80001000 5000 user_page)
      0
      0x80001000
      5000).heap
    ≡ 204
unfolding getmap alloc_range alloc_loop free_range free_loop unmap map_page pick walk
frees = refl

-- The directory, a table and two pages are freed.
deletes :
    (delete next_page stack (alloc_range next_page stack empty 0 0x80001000 5000 user_page) 0).heap
    ≡ 404
unfolding getmap alloc_range alloc_loop delete delete_tables delete_pages map_page pick walk
deletes = refl

succeeds : (map_page next_page keep empty 0 0x80001000 0x5000 user_page).0 ≡ true
unfolding map_page pick walk
succeeds = refl

map_page-view_example :
    Maps next_page keep used counts empty 0 0x80001000 0x5000 user_page
      (map_page next_page keep empty 0 0x80001000 0x5000 user_page).1
map_page-view_example =
    map_page-view next_page keep used counts empty 0 0x80001000 0x5000 user_page empty-IsTable
      succeeds
