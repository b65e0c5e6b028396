-- ===== src/PageTable/Walk.antt =====
-- The parts of `pagetable_map` of `basekernel/kernel/pagetable.c` on a well-formed table.
use stage_os.Base.{
  ℕ, ◌/◌, ◌%◌, ◌≡◌, ◌≢◌, refl, ap, sym, ◌∙◌, Bool, true, false, ◌||◌, Option, some, ◌==◌,
  Bool-cases, ==-refl, ==-ne, inl, inr,
}
use stage_os.PageTable.{Memory, zero_table}
use stage_os.PageTable.View.{Allocator, IsTable, view}

-- From `m` to `m'` page `q` was taken, and what stood in the pages in use stays.
pub record Grows {H : Type 0} (used : H → ℕ → Bool) (m m' : Memory H) (q : ℕ) : Type 0 where
  pub taken : used m'.heap q ≡ true
  pub fresh : used m.heap q ≡ false
  pub same : (n i : ℕ) → used m.heap n ≡ true → m'.entry n i ≡ m.entry n i
  pub kept : (n : ℕ) → used m.heap n ≡ true → used m'.heap n ≡ true

pub used-ne :
    {H : Type 0} (used : H → ℕ → Bool) (h : H) (n q : ℕ)
    → used h n ≡ true
    → used h q ≡ false
    → n ≢ q
used-ne used h n q u f e = let u' : used h q ≡ true = ap (used h) (sym e) ∙ u in cc

||-true : (b : Bool) → (b || true) ≡ true
||-true true = refl
||-true false = refl

module _ {H : Type 0} (page_alloc : H → Option (ℕ × H)) (page_free : H → ℕ → H)
    (used : H → ℕ → Bool) (laws : Allocator page_alloc used) where
  pub grow_plain :
      (m : Memory H) (q : ℕ) (h : H)
      → page_alloc m.heap ≡ some (q, h)
      → Grows used m (record m { heap = h }) q
  grow_plain m q h e = record {
    taken = laws.taken m.heap h q q e ∙ ap (λ b. b || used m.heap q) (==-refl q);
    fresh = laws.fresh m.heap h q e;
    same = λ n i u. refl;
    kept = λ n u. laws.taken m.heap h q n e ∙ ap (λ b. (n == q) || b) u ∙ ||-true (n == q);
  }

  pub grow_clear :
      (m : Memory H) (q : ℕ) (h : H)
      → page_alloc m.heap ≡ some (q, h)
      → Grows used m (zero_table (record m { heap = h }) q) q
  grow_clear m q h e = record {
    taken = laws.taken m.heap h q q e ∙ ap (λ b. b || used m.heap q) (==-refl q);
    fresh = laws.fresh m.heap h q e;
    same = λ n i u. rw (==-ne n q (used-ne used m.heap n q u (laws.fresh m.heap h q e))) refl;
    kept = λ n u. laws.taken m.heap h q n e ∙ ap (λ b. (n == q) || b) u ∙ ||-true (n == q);
  }

-- A table stays a table, with the same view.
module _ {H : Type 0} (used : H → ℕ → Bool) (m m' : Memory H) (p q : ℕ) (g : Grows used m m' q)
    (t : IsTable used m p) where
  pub Grows-IsTable : IsTable used m' p
  Grows-IsTable =
      let row = λ (d : ℕ). g.same p d t.root in
      record {
        root = g.kept p t.root;
        tables = λ d e. rw (row d) (g.kept _ (t.tables d (rw (row d) at e)));
        apart = λ d e. rw (row d) (t.apart d (rw (row d) at e));
        distinct = λ d d' e e' s.
            t.distinct d d' (rw (row d) at e) (rw (row d') at e') (rw (row d, row d') at s);
      }

  pub view-Grows : (v : ℕ) → view m' p v ≡ view m p v
  unfolding view
  view-Grows v = elim (Bool-cases (m.entry p (v / 1024)).present) [
    | inr e ↦ rw (g.same p (v / 1024) t.root, e) refl
    | inl e ↦ rw (g.same p (v / 1024) t.root, e, g.same _ (v % 1024) (t.tables (v / 1024) e)) refl
  ]
