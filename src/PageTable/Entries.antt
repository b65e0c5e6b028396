-- ===== src/PageTable/Entries.antt =====
-- Entries that `basekernel/kernel/pagetable.c` writes into a directory and into a table.
use stage_os.Base.{
  ℕ, ◌/◌, ◌%◌, ◌≡◌, ◌≢◌, ◌⊎◌, refl, ap, sym, ◌∙◌, Bool, true, false, ◌&&◌, ◌==◌, if◌then◌else◌,
  Bool-cases, ==-refl, ==-ne, inl, inr,
}
use native.Mathlib.Decide.{ℕ_discrete}
use stage_os.PageTable.{Entry, absent, Memory, mapping, set_entry}
use stage_os.PageTable.View.{IsTable, view}
use stage_os.PageTable.Walk.{Grows, used-ne}

-- A new table of zeros is entered at the free index `d` of the directory.
module _ {H : Type 0} (used : H → ℕ → Bool) (m m1 : Memory H) (p q d : ℕ) (e : Entry)
    (g : Grows used m m1 q) (t : IsTable used m p) (zeros : (i : ℕ) → m1.entry q i ≡ absent)
    (leads : e.addr ≡ q) (valid : e.present ≡ true) (free : (m.entry p d).present ≡ false) where
  row : (i : ℕ) → (set_entry m1 p d e).entry p i ≡ (if i == d then e else m1.entry p i)
  row i = rw (==-refl p) refl

  p-ne-q : p ≢ q
  p-ne-q = used-ne used m.heap p q t.root g.fresh

  -- An index is `d`, or was in use before.
  row_cases :
      (i : ℕ)
      → ((i ≡ d) × ((set_entry m1 p d e).entry p i ≡ e))
        ⊎ ((i ≢ d) × ((set_entry m1 p d e).entry p i ≡ m.entry p i))
  row_cases i = elim (ℕ_discrete i d) [
    | yes here ↦ inl (here, row i ∙ rw (here, ==-refl d) refl)
    | no ne ↦ inr (ne, row i ∙ rw (==-ne i d ne) (g.same p i t.root))
  ]

  old_used : (i : ℕ) → (m.entry p i).present ≡ true → (m.entry p i).addr ≢ q
  old_used i v = used-ne used m.heap (m.entry p i).addr q (t.tables i v) g.fresh

  pub extended-IsTable : IsTable used (set_entry m1 p d e) p
  extended-IsTable = record {
    root = g.kept p t.root;
    tables = λ i v. elim (row_cases i) [
      | inl c ↦ rw c.1 (rw leads g.taken)
      | inr c ↦ rw c.1 (g.kept _ (t.tables i (rw c.1 at v)))
    ];
    apart = λ i v. elim (row_cases i) [
      | inl c ↦ rw c.1 (λ x. p-ne-q (sym x ∙ leads))
      | inr c ↦ rw c.1 (t.apart i (rw c.1 at v))
    ];
    distinct = λ i j v w s. elim (row_cases i) [
      | inl c ↦ elim (row_cases j) [
        | inl c' ↦ c.0 ∙ sym c'.0
        | inr c' ↦ absurd (old_used j (rw c'.1 at w) (sym (rw (c.1, c'.1) at s) ∙ leads))
      ]
      | inr c ↦ elim (row_cases j) [
        | inl c' ↦ absurd (old_used i (rw c.1 at v) ((rw (c.1, c'.1) at s) ∙ leads))
        | inr c' ↦ t.distinct i j (rw c.1 at v) (rw c'.1 at w) (rw (c.1, c'.1) at s)
      ]
    ];
  }

  pub view-add_table : (v : ℕ) → view (set_entry m1 p d e) p v ≡ view m p v
  unfolding view
  view-add_table v = elim (row_cases (v / 1024)) [
    | inl c ↦
        let free' : (m.entry p (v / 1024)).present ≡ false =
          ap (λ i. (m.entry p i).present) c.0 ∙ free in
        rw (c.1, valid, leads, ==-ne q p (λ x. p-ne-q (sym x)), zeros (v % 1024), free') refl
    | inr c ↦ elim (Bool-cases (m.entry p (v / 1024)).present) [
      | inr e ↦ rw (c.1, e) refl
      | inl e ↦
          rw
            (
              c.1,
              e,
              ==-ne (m.entry p (v / 1024)).addr p (t.apart (v / 1024) e),
              g.same _ (v % 1024) (t.tables (v / 1024) e),
            )
            refl
    ]
  ]

-- An entry of a table is written.
module _ {H : Type 0} (used : H → ℕ → Bool) (m : Memory H) (p d i : ℕ) (e : Entry)
    (t : IsTable used m p) (there : (m.entry p d).present ≡ true) where
  root_row : (k : ℕ) → (set_entry m (m.entry p d).addr i e).entry p k ≡ m.entry p k
  root_row k = rw (==-ne p (m.entry p d).addr (λ x. t.apart d there (sym x))) refl

  pub set_entry-IsTable : IsTable used (set_entry m (m.entry p d).addr i e) p
  set_entry-IsTable = record {
    root = t.root;
    tables = λ k v. rw (root_row k) (t.tables k (rw (root_row k) at v));
    apart = λ k v. rw (root_row k) (t.apart k (rw (root_row k) at v));
    distinct = λ k k' v w s.
        t.distinct k k' (rw (root_row k) at v) (rw (root_row k') at w)
          (rw (root_row k, root_row k') at s);
  }

  pub view-set_entry :
      (v : ℕ)
      → view (set_entry m (m.entry p d).addr i e) p v
        ≡ (if v / 1024 == d && v % 1024 == i then mapping e else view m p v)
  unfolding view
  view-set_entry v = elim (ℕ_discrete (v / 1024) d) [
    | yes here ↦ elim (Bool-cases (v % 1024 == i)) [
      | inl at ↦
          rw (root_row (v / 1024), here, there, ==-refl (m.entry p d).addr, ==-refl d, at) refl
      | inr other ↦
          rw (root_row (v / 1024), here, there, ==-refl (m.entry p d).addr, ==-refl d, other) refl
    ]
    | no ne ↦ elim (Bool-cases (m.entry p (v / 1024)).present) [
      | inr gone ↦ rw (root_row (v / 1024), gone, ==-ne (v / 1024) d ne) refl
      | inl e' ↦
          let apart : (m.entry p (v / 1024)).addr ≢ (m.entry p d).addr =
            λ x. ne (t.distinct (v / 1024) d e' there x) in
          rw
            (
              root_row (v / 1024),
              e',
              ==-ne (v / 1024) d ne,
              ==-ne (m.entry p (v / 1024)).addr (m.entry p d).addr apart,
            )
            refl
    ]
  ]
