-- ===== src/Page/Alloc.antt =====
-- `page_alloc` and `page_free` of `basekernel/kernel/page.c` on the allocator's whole state.
use stage_os.Base.{
  ℕ, ◌+◌, ◌-◌, ◌*◌, ◌%◌, ◌≤◌, ◌<◌, ◌≡◌, ◌≢◌, ◌↔◌, ◌∙◌, refl, ap, sym, Bool, false, ◌&&◌, Option,
  none, some, List, arith, ltb, leb, if◌then◌else◌, length, subst,
}
use stage_os.Page.{
  u32, page_size, main_memory_start, Pages, Outcome, allocated, halted, alloc_scan, page_address,
  handed_out, take_page, page_alloc, page_number, mark_free, page_free,
}
use stage_os.Page.Freemap.{is_free, AllCells, Took, alloc_scan-Took, alloc_scan-none}

-- The allocator is initialised: its map lies in a 32-bit address space, its cells and its counter
-- are 32-bit words.
pub record IsReady (s : Pages) (cells : List ℕ) : Type 0 where
  pub map : s.freemap ≡ some cells
  pub fits : length cells * (32 * page_size) + main_memory_start ≤ u32
  pub words : AllCells cells
  pub counter : s.pages_free < u32

-- What a successful `page_alloc` does to an allocator with the map `cells`: the page `n` at `p`.
pub record Gave (zeroit : Bool) (s : Pages) (cells : List ℕ) (p : ℕ) (s' : Pages) : Type 0 where
  pub n : ℕ
  pub cells' : List ℕ
  pub took : Took 0 cells n cells'
  pub address : p ≡ main_memory_start + n * page_size
  pub ready : IsReady s' cells'
  pub counted : s'.pages_free ≡ (s.pages_free + u32 - 1) % u32
  pub same_total : s'.pages_total ≡ s.pages_total
  pub memory :
      (a : ℕ)
      → s'.memory a ≡ (if zeroit && (leb p a && ltb a (p + page_size)) then 0 else s.memory a)

module _ (s : Pages) (cells : List ℕ) (ready : IsReady s cells) (z : Bool) where
  page_alloc-take_page : page_alloc z s ≡ take_page z s (alloc_scan 0 cells)
  unfolding page_alloc
  page_alloc-take_page = ground (arith, ready.map)

  take_page-halted :
      (r : Option (ℕ × List ℕ))
      → alloc_scan 0 cells ≡ r
      → ((take_page z s r).0 ≡ halted) ↔ ((m : ℕ) → is_free cells m ≡ false)
  take_page-halted none e = (λ _. alloc_scan-none 0 cells e, λ _. refl)
  take_page-halted (some (n, cells')) e =
      let t = alloc_scan-Took 0 cells n cells' e in (λ h. cc, λ h. cc (h (n - 0 * 32), t.was_free))

  -- `page_alloc` halts exactly when the map has no free page.
  pub page_alloc-halted : ((page_alloc z s).0 ≡ halted) ↔ ((m : ℕ) → is_free cells m ≡ false)
  page_alloc-halted = rw page_alloc-take_page (take_page-halted (alloc_scan 0 cells) refl)

  page_address-lem :
      (n : ℕ) → n < 32 * length cells → page_address n ≡ main_memory_start + n * page_size
  page_address-lem n h = omega (arith, ready.fits)

  Gave-handed_out :
      (n : ℕ) (cells' : List ℕ)
      → Took 0 cells n cells'
      → Gave z s cells (page_address n) (handed_out z s n cells')
  Gave-handed_out n cells' t = record {
    n = n;
    cells' = cells';
    took = t;
    address = page_address-lem n (omega (arith, t.inside));
    ready = record {
      map = refl;
      fits = omega (arith, t.same_length, ready.fits);
      words = t.cells_ok ready.words;
      counter = omega arith;
    };
    counted = refl;
    same_total = refl;
    memory = λ a. ground arith;
  }

  take_page-Gave :
      (r : Option (ℕ × List ℕ)) (p : ℕ) (s' : Pages)
      → alloc_scan 0 cells ≡ r
      → take_page z s r ≡ (allocated p, s')
      → Gave z s cells p s'
  take_page-Gave none p s' e h = cc
  take_page-Gave (some (n, cells')) p s' e h =
      subst (λ (q : ℕ × Pages). Gave z s cells q.0 q.1) (λ i. (address_of (h i).0, (h i).1))
        (Gave-handed_out n cells' (alloc_scan-Took 0 cells n cells' e))
    where
      address_of : Outcome → ℕ
      address_of (allocated q) = q
      address_of o = 0

  -- A page that `page_alloc` hands out was free and has the least number of all free pages; the call
  -- makes exactly that page used, takes one from the counter, clears the page if it is asked to, and
  -- leaves every other byte.
  pub page_alloc-Gave :
      (p : ℕ) (s' : Pages) → page_alloc z s ≡ (allocated p, s') → Gave z s cells p s'
  page_alloc-Gave p s' h =
      take_page-Gave (alloc_scan 0 cells) p s' refl (sym page_alloc-take_page ∙ h)

module _ (s s' : Pages) (cells : List ℕ) (p : ℕ) (ready : IsReady s cells) where
  -- Two calls in a row never hand out the same page.
  pub page_alloc-distinct :
      (z z' : Bool) (q : ℕ) (s'' : Pages)
      → page_alloc z s ≡ (allocated p, s')
      → page_alloc z' s' ≡ (allocated q, s'')
      → p ≢ q
  page_alloc-distinct z z' q s'' h h' e =
      let g = page_alloc-Gave s cells ready z p s' h in
      let g' = page_alloc-Gave s' g.cells' g.ready z' q s'' h' in
      let same : g.n ≡ g'.n = omega (arith, g.address, g'.address, e) in
      ground (arith, g'.took.was_free, g.took.now (g'.n - 0 * 32), same)

  page_free-eq :
      (cells' : List ℕ)
      → s'.freemap ≡ some cells'
      → page_free p s' ≡ record s' {
        freemap = some (mark_free cells' (page_number p));
        pages_free = (s'.pages_free + 1) % u32;
      }
  unfolding page_free
  page_free-eq cells' e = ground (arith, e)

  -- `page_free` of the page that `page_alloc` has just handed out restores the map and the counters, and
  -- the whole state if the page was not to be cleared; if it was, its bytes stay 0 and all others are as
  -- before.
  pub page_free-page_alloc :
      (z : Bool)
      → page_alloc z s ≡ (allocated p, s')
      → page_free p s' ≡ record s {
        memory = λ a. if z && (leb p a && ltb a (p + page_size)) then 0 else s.memory a;
      }
  page_free-page_alloc z h =
      let g = page_alloc-Gave s cells ready z p s' h in
      let number : page_number p ≡ g.n - 0 * 32 =
        omega (arith, g.address, g.took.inside, ready.fits) in
      let counter : (s'.pages_free + 1) % u32 ≡ s.pages_free =
        omega (arith, g.counted, ready.counter) in
      let map : some (mark_free g.cells' (page_number p)) ≡ s.freemap =
        rw number (ap some g.took.undo ∙ sym ready.map) in
      page_free-eq g.cells' g.ready.map ∙ (λ i. record {
        freemap = map i;
        pages_free = counter i;
        pages_total = g.same_total i;
        memory = λ a. g.memory a i;
      })
