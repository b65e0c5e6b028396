-- ===== src/PageTable/Map.antt =====
-- `pagetable_map` and `pagetable_unmap` of `basekernel/kernel/pagetable.c` on the mapping of a table.
use stage_os.Base.{
  ℕ, ◌/◌, ◌%◌, ◌^◌, ◌≡◌, ◌⊎◌, refl, ap, sym, subst, ◌∙◌, Bool, true, false, ◌&&◌, Option, none,
  some, ◌==◌, if◌then◌else◌, Bool-cases, Option-cases, ==-refl, inl, inr, arith,
}
use stage_os.PageTable.{
  Entry, absent, Memory, Flags, mapping, set_entry, zero_table, dir_entry, page_entry, dir_index,
  table_index, pick, alloc_page, walk, map_page, unmap,
}
use stage_os.PageTable.View.{Allocator, IsTable, view}
use stage_os.PageTable.Walk.{grow_plain, grow_clear, Grows-IsTable, view-Grows}
use stage_os.PageTable.Entries.{extended-IsTable, view-add_table, set_entry-IsTable, view-set_entry}

-- From `m` to `m'` the table of index `d` was found or made: it is page `q`, and nothing else changed in
-- what is mapped.
record Walked {H : Type 0} (used : H → ℕ → Bool) (m m' : Memory H) (p d q : ℕ) : Type 0 where
  table : IsTable used m' p
  there : (m'.entry p d).present ≡ true
  leads : (m'.entry p d).addr ≡ q
  same : (v : ℕ) → view m' p v ≡ view m p v

zero_table_at : {H : Type 0} (m : Memory H) (q i : ℕ) → (zero_table m q).entry q i ≡ absent
zero_table_at m q i = rw (==-refl q) refl

set_entry_at : {H : Type 0} (m : Memory H) (q i : ℕ) (e : Entry) → (set_entry m q i e).entry q i ≡ e
set_entry_at m q i e = rw (==-refl q, ==-refl i) refl

-- Two indices name one page.
same_page :
    (v vaddr : ℕ)
    → (v / 1024 == vaddr / 2 ^ 22 && v % 1024 == vaddr / 2 ^ 12 % 1024) ≡ (v == vaddr / 4096)
same_page v vaddr = ground arith

module _ {H : Type 0} (page_alloc : H → Option (ℕ × H)) (page_free : H → ℕ → H)
    (used : H → ℕ → Bool) (laws : Allocator page_alloc used) where
  walk_lem :
      (m : Memory H) (p vaddr : ℕ) (flags : Flags)
      → IsTable used m p
      → (walk page_alloc page_free m p vaddr flags ≡ none)
        ⊎ ((q : ℕ) × (m' : Memory H) × (walk page_alloc page_free m p vaddr flags ≡ some (q, m'))
            × Walked used m m' p (dir_index vaddr) q)
  unfolding walk
  walk_lem m p vaddr flags t = elim (Bool-cases (m.entry p (dir_index vaddr)).present) [
    | inl e ↦ inr (
      (m.entry p (dir_index vaddr)).addr,
      m,
      rw (e, walk) refl,
      record { table = t; there = e; leads = refl; same = λ v. refl },
    )
    | inr e ↦ elim (Option-cases (page_alloc m.heap)) [
      | inl full ↦ inl (rw (e, full, walk) refl)
      | inr ((q, h), given) ↦
          let m1 : Memory H = zero_table (record m { heap = h }) q in
          let g = grow_clear page_alloc page_free used laws m q h given in
          let d : ℕ = dir_index vaddr in
          let zeros = λ (i : ℕ). zero_table_at (record m { heap = h }) q i in
          let here = set_entry_at m1 p d (dir_entry flags q) in
          inr (
            q,
            set_entry m1 p d (dir_entry flags q),
            rw (e, given, walk) refl,
            record {
              table = extended-IsTable used m m1 p q d (dir_entry flags q) g t zeros refl refl e;
              there = ap (λ x. x.present) here;
              leads = ap (λ x. x.addr) here;
              same = view-add_table used m m1 p q d (dir_entry flags q) g t zeros refl refl e;
            },
          )
    ]
  ]

  -- The page that is mapped was not in use where it is allocated.
  pick_lem :
      (m : Memory H) (p paddr : ℕ) (flags : Flags)
      → IsTable used m p
      → (pick page_alloc page_free m paddr flags ≡ none)
        ⊎ ((page : ℕ) × (m' : Memory H) × (pick page_alloc page_free m paddr flags
              ≡ some (page, m'))
            × IsTable used m' p
            × ((v : ℕ) → view m' p v ≡ view m p v)
            × (flags.alloc ≡ true → used m.heap page ≡ false)
            × (flags.alloc ≡ false → page ≡ paddr / 4096))
  unfolding pick
  pick_lem m p paddr flags t = elim (Bool-cases flags.alloc) [
    | inr e ↦ inr (
      paddr / 4096,
      m,
      rw (e, pick) refl,
      t,
      λ v. refl,
      λ x. let bad : true ≡ false = sym x ∙ e in cc,
      λ x. refl,
    )
    | inl e ↦ elim (Option-cases (page_alloc m.heap)) [
      | inl full ↦ inl (rw (e, full, pick, alloc_page) refl)
      | inr ((q, h), given) ↦ elim (Bool-cases flags.clear) [
        | inl c ↦
            let g = grow_clear page_alloc page_free used laws m q h given in
            let m1 : Memory H = zero_table (record m { heap = h }) q in
            inr (
              q,
              m1,
              rw (e, given, c, pick, alloc_page) refl,
              Grows-IsTable used m m1 p q g t,
              view-Grows used m m1 p q g t,
              λ x. g.fresh,
              λ x. let bad : true ≡ false = sym e ∙ x in cc,
            )
        | inr c ↦
            let g = grow_plain page_alloc page_free used laws m q h given in
            let m1 : Memory H = record m { heap = h } in
            inr (
              q,
              m1,
              rw (e, given, c, pick, alloc_page) refl,
              Grows-IsTable used m m1 p q g t,
              view-Grows used m m1 p q g t,
              λ x. g.fresh,
              λ x. let bad : true ≡ false = sym e ∙ x in cc,
            )
      ]
    ]
  ]

  -- In `m'` the page of `vaddr` is mapped, and no other page differently than in `m`: to the page of
  -- `paddr`, or to one that was not in use.
  abbrev pub Maps : Memory H → (p vaddr paddr : ℕ) → Flags → Memory H → Type 0
  Maps m p vaddr paddr flags m' =
      IsTable used m' p
      × ((page : ℕ) × (flags.alloc ≡ true → used m.heap page ≡ false)
          × (flags.alloc ≡ false → page ≡ paddr / 4096)
          × ((v : ℕ)
              → view m' p v
                ≡ (if v == vaddr / 4096 then mapping (page_entry flags page) else view m p v)))

  -- `pagetable_map` that succeeds maps the page of the address with its flags, to the page of `paddr` or
  -- to a new page, and maps no other page differently; the table stays well formed.
  pub map_page-view :
      (m : Memory H) (p vaddr paddr : ℕ) (flags : Flags)
      → IsTable used m p
      → (map_page page_alloc page_free m p vaddr paddr flags).0 ≡ true
      → Maps m p vaddr paddr flags (map_page page_alloc page_free m p vaddr paddr flags).1
  unfolding map_page
  map_page-view m p vaddr paddr flags t done = elim (pick_lem m p paddr flags t) [
    | inl e ↦ let bad : false ≡ true = rw (e, map_page) at done in cc
    | inr (page, m1, e, t1, same1, fresh, plain) ↦ elim (walk_lem m1 p vaddr flags t1) [
      | inl f ↦ let bad : false ≡ true = rw (e, f, map_page) at done in cc
      | inr (q, m2, f, w) ↦
          let d : ℕ = dir_index vaddr in
          let i : ℕ = table_index vaddr in
          let last : Entry = page_entry flags page in
          let result : map_page page_alloc page_free m p vaddr paddr flags
              ≡ (true, set_entry m2 q i last) =
            rw (e, f, map_page) refl in
          let place : set_entry m2 (m2.entry p d).addr i last ≡ set_entry m2 q i last =
            ap (λ k. set_entry m2 k i last) w.leads in
          subst (λ r. Maps m p vaddr paddr flags r.1) (sym result)
            (subst (Maps m p vaddr paddr flags) place (
              set_entry-IsTable used m2 p d i last w.table w.there,
              (
                page,
                fresh,
                plain,
                λ v.
                    view-set_entry used m2 p d i last w.table w.there v
                    ∙ ap (λ b. if b then mapping last else view m2 p v) (same_page v vaddr)
                    ∙ ap (λ o. if v == vaddr / 4096 then mapping last else o) (w.same v ∙ same1 v),
              ),
            ))
    ]
  ]

view-absent :
    {H : Type 0} (m : Memory H) (p v : ℕ)
    → (m.entry p (v / 1024)).present ≡ false
    → view m p v ≡ none
unfolding view
view-absent m p v e = rw (e, view) refl

-- `pagetable_unmap` takes the page of the address out of what is mapped, and no other; the table stays
-- well formed.
pub unmap-view :
    {H : Type 0} (used : H → ℕ → Bool) (m : Memory H) (p vaddr : ℕ)
    → IsTable used m p
    → IsTable used (unmap m p vaddr) p
      × ((v : ℕ) → view (unmap m p vaddr) p v ≡ (if v == vaddr / 4096 then none else view m p v))
unfolding unmap
unmap-view used m p vaddr t = elim (Bool-cases (m.entry p (dir_index vaddr)).present) [
  | inr e ↦ (
    rw (e, unmap) t,
    λ v.
        rw (e, unmap)
          (elim (Bool-cases (v == vaddr / 4096)) [
            | inr other ↦ rw other refl
            | inl same ↦
                let index : v / 1024 ≡ vaddr / 2 ^ 22 = ground arith in
                rw same (view-absent m p v (ap (λ i. (m.entry p i).present) index ∙ e))
          ]),
  )
  | inl e ↦
      let d : ℕ = dir_index vaddr in
      let i : ℕ = table_index vaddr in
      let last : Entry = record (m.entry (m.entry p d).addr i) { present = false } in
      (
        rw (e, unmap) (set_entry-IsTable used m p d i last t e),
        λ v.
            rw (e, unmap)
              (view-set_entry used m p d i last t e v
                ∙ ap (λ b. if b then mapping last else view m p v) (same_page v vaddr)),
      )
]
