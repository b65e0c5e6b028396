-- ===== src/Page/Hardened/Laws.antt =====
-- What the checks of `New Memory management/page.c` guarantee, and what its test for a double free
-- does.
use stage_os.Base.{
  true, ℕ, suc, ◌-◌, ◌/◌, ◌%◌, ◌<◌, ◌≡◌, ◌∙◌, refl, ap, sym, Bool, ◌≢◌, ◌+◌, ◌*◌, ◌≤◌, false,
  Option, none, some, List, [], ◌∷◌, arith, leb, inl, inr, Bool-cases, subst,
}
use native.Mathlib.Decide.{dec_lt}
use stage_os.Cell.Masks.{test_bit-zero}
use stage_os.Page.{
  u32, page_size, main_memory_start, Pages, Outcome, allocated, page_address, page_number,
  alloc_scan, handed_out,
}
use stage_os.Page.Freemap.{is_free, Took, alloc_scan-Took}
use stage_os.Page.Hardened.{check_page, page_alloc, page_free, bit_of, is_guarded}

-- The bit that `page_free` tests says whether the page is free.
pub bit_of-is_free : (cells : List ℕ) (n : ℕ) → bit_of cells n ≡ is_free cells n
unfolding bit_of is_free
bit_of-is_free [] n = test_bit-zero (n % 32)
bit_of-is_free (c ∷ cs) n = elim (dec_lt n 32) [
  | yes p ↦
      let q : n / 32 ≡ 0 = omega arith in
      let r : n % 32 ≡ n = omega arith in rw (q, r) (ground arith)
  | no p ↦
      let q : n / 32 ≡ suc ((n - 32) / 32) = omega arith in
      let r : n % 32 ≡ (n - 32) % 32 = omega arith in
      rw (q, r) (bit_of-is_free cs (n - 32) ∙ ground arith)
]

-- `page_free` of a page whose bit is clear changes nothing.
page_free-used :
    (s : Pages) (cells : List ℕ) (p : ℕ)
    → s.freemap ≡ some cells
    → is_free cells (page_number p) ≡ false
    → page_free p s ≡ s
unfolding page_free
page_free-used s cells p e h = ground (arith, bit_of-is_free cells (page_number p))

-- The checks that a page which is handed out has passed.
pub record Checked (undefined : ℕ) (z : Bool) (s : Pages) (r : Option (ℕ × List ℕ)) (p : ℕ)
    (s' : Pages) : Type 0 where
  pub n : ℕ
  pub cells' : List ℕ
  pub found : r ≡ some (n, cells')
  pub address : p ≡ page_address n
  pub in_memory : n < s.pages_total
  pub no_guard : is_guarded undefined s p ≡ false
  pub left : s' ≡ handed_out z s n cells'

check_page-Checked :
    (undefined : ℕ) (z : Bool) (s : Pages) (r : Option (ℕ × List ℕ)) (p : ℕ) (s' : Pages)
    → check_page undefined z s r ≡ (allocated p, s')
    → Checked undefined z s r p s'
unfolding check_page
check_page-Checked undefined z s none p s' h = cc
check_page-Checked undefined z s (some (n, cells')) p s' h =
    elim (Bool-cases (leb s.pages_total n)) [
      | inl e ↦ let k = rw e at h in cc
      | inr e ↦ elim (Bool-cases (is_guarded undefined s (page_address n))) [
        | inl f ↦ let k = rw (e, f) at h in cc
        | inr f ↦ passed (rw (e, f) at h) f (ground (arith, e))
      ]
    ]
  where
    address_of : Outcome → ℕ
    address_of (allocated q) = q
    address_of o = 0

    passed :
        ◌≡◌ {A = Outcome × Pages}
          (allocated (page_address n), handed_out z s n cells')
          (allocated p, s')
        → is_guarded undefined s (page_address n) ≡ false
        → n < s.pages_total
        → Checked undefined z s (some (n, cells')) p s'
    passed k f lt = record {
      n = n;
      cells' = cells';
      found = refl;
      address = λ i. address_of (sym k i).0;
      in_memory = lt;
      no_guard = subst (λ q. is_guarded undefined s q ≡ false) (λ i. address_of (k i).0) f;
      left = λ i. (sym k i).1;
    }

-- A page that `page_alloc` hands out lies below `pages_total`, was the free page of the least number,
-- and does not begin with the guard pattern; the call marks that page used.
pub page_alloc-Checked :
    (undefined : ℕ) (z : Bool) (s : Pages) (cells : List ℕ) (p : ℕ) (s' : Pages)
    → s.freemap ≡ some cells
    → page_alloc undefined z s ≡ (allocated p, s')
    → (c : Checked undefined z s (alloc_scan 0 cells) p s') × Took 0 cells c.n c.cells'
unfolding page_alloc
page_alloc-Checked undefined z s cells p s' e h =
    let c : Checked undefined z s (alloc_scan 0 cells) p s' =
      check_page-Checked undefined z s (alloc_scan 0 cells) p s' (ground arith) in
    (c, alloc_scan-Took 0 cells c.n c.cells' c.found)

page_address-lem :
    (total n : ℕ)
    → n < total
    → main_memory_start + total * page_size ≤ u32
    → page_address n ≡ main_memory_start + n * page_size
page_address-lem total n lt fits = omega arith

used_and_free :
    (cells : List ℕ) (m n : ℕ) → m ≡ n → is_free cells m ≡ false → is_free cells n ≡ true → ⊥
used_and_free cells m n e used free = two_values (sym used ∙ ap (is_free cells) e ∙ free)
  where
    two_values : ◌≡◌ {A = Bool} false true → ⊥
    two_values h = cc

-- A page whose bit is clear is not handed out.
not_handed_out :
    (undefined : ℕ) (z : Bool) (s : Pages) (cells : List ℕ) (n q : ℕ) (s' : Pages)
    → s.freemap ≡ some cells
    → main_memory_start + s.pages_total * page_size ≤ u32
    → is_free cells n ≡ false
    → page_alloc undefined z s ≡ (allocated q, s')
    → q ≢ main_memory_start + n * page_size
not_handed_out undefined z s cells n q s' map fits used h eq =
    let (c, t) = page_alloc-Checked undefined z s cells q s' map h in
    let place = page_address-lem s.pages_total c.n c.in_memory fits in
    let n_same : n ≡ c.n - 0 * 32 = omega (arith, c.address, place, eq) in
    used_and_free cells n (c.n - 0 * 32) n_same used t.was_free

-- `page_free` of a page that `page_alloc` has handed out changes nothing, and the next `page_alloc` does
-- not hand it out: the page is never given back. The memory lies below 2 ^ 32.
pub page_free-allocated :
    (undefined : ℕ) (z : Bool) (s : Pages) (cells : List ℕ) (p : ℕ) (s' : Pages)
    → s.freemap ≡ some cells
    → main_memory_start + s.pages_total * page_size ≤ u32
    → page_alloc undefined z s ≡ (allocated p, s')
    → (page_free p s' ≡ s')
      × ((z' : Bool) (q : ℕ) (s'' : Pages)
          → page_alloc undefined z' (page_free p s') ≡ (allocated q, s'')
          → q ≢ p)
page_free-allocated undefined z s cells p s' e fits h =
    let (c, t) = page_alloc-Checked undefined z s cells p s' e h in
    let place = c.address ∙ page_address-lem s.pages_total c.n c.in_memory fits in
    let map : s'.freemap ≡ some c.cells' = ap (λ k. k.freemap) c.left in
    let total : s'.pages_total ≡ s.pages_total = ap (λ k. k.pages_total) c.left in
    let used : is_free c.cells' c.n ≡ false = ground (arith, t.now c.n) in
    let number : page_number p ≡ c.n = omega (arith, place, c.in_memory) in
    let same = page_free-used s' c.cells' p map (ap (is_free c.cells') number ∙ used) in
    (
      same,
      λ z' q s'' again eq.
          not_handed_out undefined z' s' c.cells' c.n q s'' map
            (subst (λ k. main_memory_start + k * page_size ≤ u32) (sym total) fits) used
            (rw same at again) (eq ∙ place),
    )
