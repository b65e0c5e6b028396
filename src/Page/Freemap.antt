-- ===== src/Page/Freemap.antt =====
-- The bit map of `basekernel/kernel/page.c` as a set of page numbers: what the search of
-- `page_alloc` takes out of it and what `page_free` puts in.
use stage_os.Base.{
  ℕ, suc, ◌+◌, ◌-◌, ◌*◌, ◌/◌, ◌%◌, ◌≤◌, ◌<◌, ◌≡◌, ◌∙◌, refl, ap, sym, inl, inr, Bool, true, false,
  Option, none, some, List, [], ◌∷◌, arith, ◌==◌, ltb, if◌then◌else◌, Bool-cases, Option-cases,
  length, ==-ne, ==_iff, subst,
}
use native.Mathlib.Decide.{dec_lt}
use stage_os.Cell.{test_bit, clear_bit, set_bit, find_bit}
use stage_os.Cell.Masks.{
  test_bit-clear_bit, test_bit-set_bit, set_bit-clear_bit, clear_bit-le, test_bit-zero,
  find_bit-first, find_bit-none,
}
use mathlib.Core.Option.{some-injective}
use stage_os.Page.{u32, pass_cell, alloc_scan, mark_free}

-- The map says that page `n` is free.
unfoldable pub is_free : List ℕ → ℕ → Bool
is_free [] n = false
is_free (c ∷ cs) n = if ltb n 32 then test_bit c n else is_free cs (n - 32)

-- Every cell is a `uint32_t`.
abbrev pub AllCells : List ℕ → Type 0
AllCells [] = Unit {0}
AllCells (c ∷ cs) = (c < u32) × AllCells cs

-- What `alloc_scan i` takes out of `cells`: the free page of the least number, and no other.
pub record Took (i : ℕ) (cells : List ℕ) (n : ℕ) (cells' : List ℕ) : Type 0 where
  pub from : i * 32 ≤ n
  pub was_free : is_free cells (n - i * 32) ≡ true
  pub least : (m : ℕ) → m < n - i * 32 → is_free cells m ≡ false
  pub now : (m : ℕ) → is_free cells' m ≡ (if m == n - i * 32 then false else is_free cells m)
  pub same_length : length cells' ≡ length cells
  pub cells_ok : AllCells cells → AllCells cells'
  pub inside : n - i * 32 < 32 * length cells
  pub undo : mark_free cells' (n - i * 32) ≡ cells

pub is_free-below : (c : ℕ) (cs : List ℕ) (n : ℕ) → n < 32 → is_free (c ∷ cs) n ≡ test_bit c n
unfolding is_free
is_free-below c cs n h = ground arith

pub is_free-above :
    (c : ℕ) (cs : List ℕ) (n : ℕ) → 32 ≤ n → is_free (c ∷ cs) n ≡ is_free cs (n - 32)
unfolding is_free
is_free-above c cs n h = ground arith

mark_free-below : (c : ℕ) (cs : List ℕ) (n : ℕ) → n < 32 → mark_free (c ∷ cs) n ≡ set_bit c n ∷ cs
unfolding mark_free
mark_free-below c cs n h =
    let q : n / 32 ≡ 0 = omega arith in let r : n % 32 ≡ n = omega arith in rw (q, r)

mark_free-above :
    (c : ℕ) (cs : List ℕ) (n : ℕ) → 32 ≤ n → mark_free (c ∷ cs) n ≡ c ∷ mark_free cs (n - 32)
unfolding mark_free
mark_free-above c cs n h =
    let q : n / 32 ≡ suc ((n - 32) / 32) = omega arith in
    let r : n % 32 ≡ (n - 32) % 32 = omega arith in rw (q, r)

-- The bit is found in this cell.
Took-here :
    (i c : ℕ) (cs : List ℕ) (j : ℕ)
    → find_bit 32 0 c ≡ some j
    → Took i (c ∷ cs) (i * 32 + j) (clear_bit c j ∷ cs)
unfolding is_free
Took-here i c cs j e =
    let f = find_bit-first 32 0 c j e in
    let k : i * 32 + j - i * 32 ≡ j = omega arith in
    record {
      from = omega arith;
      was_free = rw k (is_free-below c cs j f.1 ∙ f.0);
      least = λ m h. is_free-below c cs m (omega arith) ∙ f.3 m (omega arith) (omega arith);
      now = λ m. rw k (ground (arith, test_bit-clear_bit c j m, f.1));
      same_length = refl;
      cells_ok = λ a. (omega (arith, clear_bit-le c j, a.0), a.1);
      inside = omega (arith, f.1);
      undo =
          rw k (
            mark_free-below (clear_bit c j) cs j f.1
            ∙ ap (λ d. d ∷ cs) (set_bit-clear_bit c j f.0));
    }

-- No bit of this cell is set, and a later cell gives the page.
module _ (i c : ℕ) (cs : List ℕ) (blank : (m : ℕ) → m < 32 → test_bit c m ≡ false) where
  Took-later : (n : ℕ) (cs' : List ℕ) → Took (i + 1) cs n cs' → Took i (c ∷ cs) n (c ∷ cs')
  Took-later n cs' t =
      let a : n - i * 32 - 32 ≡ n - (i + 1) * 32 = omega (arith, t.from) in
      let b : 32 ≤ n - i * 32 = omega (arith, t.from) in
      record {
        from = omega (arith, t.from);
        was_free = is_free-above c cs (n - i * 32) b ∙ rw a t.was_free;
        least = λ m h. elim (dec_lt m 32) [
          | yes p ↦ is_free-below c cs m p ∙ blank m p
          | no p ↦ is_free-above c cs m (omega arith) ∙ t.least (m - 32) (omega arith)
        ];
        now = λ m. elim (dec_lt m 32) [
          | yes p ↦
              is_free-below c cs' m p
              ∙ rw (==-ne m (n - i * 32) (omega arith)) (sym (is_free-below c cs m p))
          | no p ↦
              is_free-above c cs' m (omega arith)
              ∙ t.now (m - 32)
              ∙ ground (arith, is_free-above c cs m (omega arith), a)
        ];
        same_length = ap suc t.same_length;
        cells_ok = λ h. (h.0, t.cells_ok h.1);
        inside = omega (arith, t.inside);
        undo = mark_free-above c cs' (n - i * 32) b ∙ ap (λ d. c ∷ d) (rw a t.undo);
      }

  pass_cell-Took :
      (r : Option (ℕ × List ℕ)) (n : ℕ) (cells' : List ℕ)
      → ((k : ℕ) (cs' : List ℕ) → r ≡ some (k, cs') → Took (i + 1) cs k cs')
      → pass_cell c r ≡ some (n, cells')
      → Took i (c ∷ cs) n cells'
  pass_cell-Took none n cells' ih e = cc
  pass_cell-Took (some (k, cs')) n cells' ih e =
      subst (λ (p : ℕ × List ℕ). Took i (c ∷ cs) p.0 p.1)
        (some-injective (k, c ∷ cs') (n, cells') e) (Took-later k cs' (ih k cs' refl))

  pass_cell-none :
      (r : Option (ℕ × List ℕ))
      → (r ≡ none → (m : ℕ) → is_free cs m ≡ false)
      → pass_cell c r ≡ none
      → (m : ℕ) → is_free (c ∷ cs) m ≡ false
  pass_cell-none (some (k, cs')) ih e m = cc
  pass_cell-none none ih e m = elim (dec_lt m 32) [
    | yes p ↦ is_free-below c cs m p ∙ blank m p
    | no p ↦ is_free-above c cs m (omega arith) ∙ ih refl (m - 32)
  ]

blank_of_zero : (c : ℕ) → (c == 0) ≡ true → (m : ℕ) → m < 32 → test_bit c m ≡ false
blank_of_zero c z m lt =
    subst (λ d. test_bit d m ≡ false) (sym ((==_iff c 0).0 z)) (test_bit-zero m)

blank_of_none : (c : ℕ) → find_bit 32 0 c ≡ none → (m : ℕ) → m < 32 → test_bit c m ≡ false
blank_of_none c f m lt = find_bit-none 32 0 c f m (omega arith) (omega arith)

-- What the search returns it took out of the map.
pub alloc_scan-Took :
    (i : ℕ) (cells : List ℕ) (n : ℕ) (cells' : List ℕ)
    → alloc_scan i cells ≡ some (n, cells')
    → Took i cells n cells'
unfolding alloc_scan
alloc_scan-Took i [] n cells' h = cc
alloc_scan-Took i (c ∷ cs) n cells' h = elim (Bool-cases (c == 0)) [
  | inl z ↦
      pass_cell-Took i c cs (blank_of_zero c z) (alloc_scan (i + 1) cs) n cells'
        (alloc_scan-Took (i + 1) cs) (rw z at h)
  | inr nz ↦ elim (Option-cases (find_bit 32 0 c)) [
    | inl f ↦
        pass_cell-Took i c cs (blank_of_none c f) (alloc_scan (i + 1) cs) n cells'
          (alloc_scan-Took (i + 1) cs) (rw (nz, f) at h)
    | inr (j, f) ↦
        subst (λ (p : ℕ × List ℕ). Took i (c ∷ cs) p.0 p.1) (some-injective _ _ (rw (nz, f) at h))
          (Took-here i c cs j f)
  ]
]

-- It returns nothing only if the map has no free page.
pub alloc_scan-none :
    (i : ℕ) (cells : List ℕ) → alloc_scan i cells ≡ none → (m : ℕ) → is_free cells m ≡ false
unfolding alloc_scan is_free
alloc_scan-none i [] h m = refl
alloc_scan-none i (c ∷ cs) h m = elim (Bool-cases (c == 0)) [
  | inl z ↦
      pass_cell-none i c cs (blank_of_zero c z) (alloc_scan (i + 1) cs) (alloc_scan-none (i + 1) cs)
        (rw z at h) m
  | inr nz ↦ elim (Option-cases (find_bit 32 0 c)) [
    | inl f ↦
        pass_cell-none i c cs (blank_of_none c f) (alloc_scan (i + 1) cs)
          (alloc_scan-none (i + 1) cs) (rw (nz, f) at h) m
    | inr (j, f) ↦ let b = rw (nz, f) at h in cc
  ]
]

-- Marking a page of the map makes it free, and leaves every other page.
pub is_free-mark_free :
    (cells : List ℕ) (n m : ℕ)
    → n < 32 * length cells
    → is_free (mark_free cells n) m ≡ (if m == n then true else is_free cells m)
is_free-mark_free [] n m h = absurd (omega arith)
is_free-mark_free (c ∷ cs) n m h = elim (dec_lt n 32) [
  | yes p ↦ rw (mark_free-below c cs n p) (elim (dec_lt m 32) [
    | yes q ↦
        rw (is_free-below (set_bit c n) cs m q, is_free-below c cs m q) (test_bit-set_bit c n m)
    | no q ↦
        rw
          (
            is_free-above (set_bit c n) cs m (omega arith),
            is_free-above c cs m (omega arith),
            ==-ne m n (omega arith),
          )
          refl
  ])
  | no p ↦ rw (mark_free-above c cs n (omega arith)) (elim (dec_lt m 32) [
    | yes q ↦
        rw
          (
            is_free-below c (mark_free cs (n - 32)) m q,
            is_free-below c cs m q,
            ==-ne m n (omega arith),
          )
          refl
    | no q ↦
        rw
          (
            is_free-above c (mark_free cs (n - 32)) m (omega arith),
            is_free-above c cs m (omega arith),
          )
          (is_free-mark_free cs (n - 32) (m - 32) (omega arith) ∙ ground arith)
  ])
]
