-- ===== src/Page/Tests.antt =====
-- The allocators of `basekernel/kernel/page.c` and `New Memory management/page.c` at small maps.
use stage_os.Base.{ℕ, ◌≡◌, ◌≢◌, Bool, refl, false, some, List, [], ◌∷◌, arith, replicate}
use stage_os.Page.{Pages, allocated, page_alloc, page_free, page_init, page_stats}
use stage_os.Page.Alloc.{IsReady, Gave, page_alloc-Gave, page_free-page_alloc}
use stage_os.Page.Hardened
use stage_os.Page.Hardened.Laws.{page_free-allocated}

-- Pages 0 to 34 but for page 33 are used.
abbrev cells : List ℕ
cells = 0 ∷ 2 ∷ []

abbrev pages : Pages
pages = record { freemap = some cells; pages_free = 1; pages_total = 40; memory = λ _. 7 }

abbrev used_up : Pages
used_up = record pages { freemap = some (0 ∷ 0 ∷ []); pages_free = 0 }

pages-IsReady : IsReady pages cells
pages-IsReady = record {
  map = refl;
  fits = omega arith;
  words = (omega arith, (omega arith, tt));
  counter = omega arith;
}

alloc_gives_33 : page_alloc false pages ≡ (allocated 0x221000, used_up)
unfolding page_alloc
alloc_gives_33 = refl

init_4_mb : page_stats (page_init 4 (replicate 17 0) pages) ≡ (511, 512)
unfolding page_init page_stats
init_4_mb = refl

page_alloc-Gave_example : Gave false pages cells 0x221000 used_up
page_alloc-Gave_example =
    page_alloc-Gave pages cells pages-IsReady false 0x221000 used_up alloc_gives_33

-- Two pages are free, 33 and 34.
abbrev two_free : Pages
two_free = record pages { freemap = some (0 ∷ 6 ∷ []); pages_free = 2 }

abbrev one_free : Pages
one_free = record pages { freemap = some (0 ∷ 4 ∷ []) }

page_free-page_alloc_example : page_free 0x221000 used_up ≡ pages
page_free-page_alloc_example =
    page_free-page_alloc pages used_up cells 0x221000 pages-IsReady false alloc_gives_33

hardened_gives_33 : Hardened.page_alloc 1 false pages ≡ (allocated 0x221000, used_up)
unfolding Hardened.page_alloc
hardened_gives_33 = refl

page_free-allocated_example :
    (Hardened.page_free 0x221000 used_up ≡ used_up)
    × ((z : Bool) (q : ℕ) (s : Pages)
        → Hardened.page_alloc 1 z (Hardened.page_free 0x221000 used_up) ≡ (allocated q, s)
        → q ≢ 0x221000)
page_free-allocated_example =
    page_free-allocated 1 false pages cells 0x221000 used_up refl (omega arith) hardened_gives_33
