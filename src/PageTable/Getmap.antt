-- ===== src/PageTable/Getmap.antt =====
-- `pagetable_getmap` of `basekernel/kernel/pagetable.c` after `pagetable_map` and `pagetable_unmap`.
use stage_os.Base.{ℕ, ◌/◌, ◌≡◌, ap, sym, ◌∙◌, Bool, true, false, Option, none, ◌==◌, if◌then◌else◌}
use stage_os.PageTable.{Memory, Flags, mapping, page_entry, map_page, unmap, getmap}
use stage_os.PageTable.View.{Allocator, IsTable, view, getmap-view}
use stage_os.PageTable.Map.{map_page-view, unmap-view}

-- After a `pagetable_map` without `PAGE_FLAG_ALLOC` that succeeds, `pagetable_getmap` of an address in
-- the page gives the page of `paddr` and the flags, and of any other address what it gave before.
pub getmap-map_page :
    {H : Type 0} (page_alloc : H → Option (ℕ × H)) (page_free : H → ℕ → H) (used : H → ℕ → Bool)
    (m : Memory H) (p vaddr paddr at : ℕ) (flags : Flags)
    → Allocator page_alloc used
    → IsTable used m p
    → flags.alloc ≡ false
    → (map_page page_alloc page_free m p vaddr paddr flags).0 ≡ true
    → getmap (map_page page_alloc page_free m p vaddr paddr flags).1 p at ≡ (
        if at / 4096 == vaddr / 4096
        then mapping (page_entry flags (paddr / 4096))
        else getmap m p at)
getmap-map_page page_alloc page_free used m p vaddr paddr at flags laws t plain done =
    let (page, fresh, same, views) =
      (map_page-view page_alloc page_free used laws m p vaddr paddr flags t done).1 in
    getmap-view (map_page page_alloc page_free m p vaddr paddr flags).1 p at
    ∙ views (at / 4096)
    ∙ ap
        (λ (k : ℕ).
          if at / 4096 == vaddr / 4096 then mapping (page_entry flags k) else view m p (at / 4096))
        (same plain)
    ∙ ap (λ o. if at / 4096 == vaddr / 4096 then mapping (page_entry flags (paddr / 4096)) else o)
        (sym (getmap-view m p at))

-- After `pagetable_unmap`, `pagetable_getmap` fails for the addresses in the page, and gives for any
-- other address what it gave before.
pub getmap-unmap :
    {H : Type 0} (used : H → ℕ → Bool) (m : Memory H) (p vaddr at : ℕ)
    → IsTable used m p
    → getmap (unmap m p vaddr) p at ≡ (if at / 4096 == vaddr / 4096 then none else getmap m p at)
getmap-unmap used m p vaddr at t =
    getmap-view (unmap m p vaddr) p at
    ∙ (unmap-view used m p vaddr t).1 (at / 4096)
    ∙ ap (λ o. if at / 4096 == vaddr / 4096 then none else o) (sym (getmap-view m p at))
