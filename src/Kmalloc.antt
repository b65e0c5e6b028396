-- ===== src/Kmalloc.antt =====
-- The kernel heap of `basekernel/kernel/kmalloc.c`. The chunks that `head` and the `next` pointers
-- chain are a list; addresses and lengths are below 2 ^ 31, so that no sum leaves its type.
pub mod Layout
mod Tests
use stage_os.Base.{
  ℕ, zero, suc, ◌+◌, ◌-◌, ◌*◌, ◌/◌, Bool, true, false, not, ◌&&◌, Option, none, some, List, [], ◌∷◌,
  ◌==◌, ltb, leb, if◌then◌else◌,
}

-- `KUNIT`, the size of a header
abbrev pub kunit : ℕ
kunit = 16

-- `struct kmalloc_chunk` at its address; `used` is its state.
pub record Chunk : Type 0 where
  pub address : ℕ
  pub used : Bool
  pub length : ℕ

-- `kmalloc_init`
pub kmalloc_init : ℕ → ℕ → List Chunk
kmalloc_init start length = record { address = start; used = false; length = length } ∷ []

-- The length that `kmalloc` looks for
pub padded : ℕ → ℕ
padded length = (length + kunit - 1) / kunit * kunit + kunit

-- What `kmalloc` makes of the chunk that it takes
pub take_chunk : ℕ → Chunk → List Chunk → List Chunk
take_chunk need c rest =
    if ltb (2 * kunit) (c.length - need)
    then record c { used = true; length = need }
      ∷ record { address = c.address + need; used = false; length = c.length - need }
      ∷ rest
    else record c { used = true } ∷ rest

-- The search for the first free chunk that is long enough: its address, and the chunks afterwards
pub first_fit : ℕ → List Chunk → Option (ℕ × List Chunk)
unfolding take_chunk
first_fit need [] = none
first_fit need (c ∷ rest) =
    let later = first_fit need rest in
    if not c.used && leb need c.length
    then some (c.address, take_chunk need c rest)
    else elim later [ none ↦ none | some r ↦ some (r.0, c ∷ r.1) ]

-- `kmalloc`: the pointer, or the null pointer, and the chunks afterwards
pub kmalloc : ℕ → List Chunk → Option ℕ × List Chunk
unfolding padded first_fit
kmalloc length h = elim (first_fit (padded length) h) [
  | none ↦ (none, h)
  | some r ↦ (some (r.0 + kunit), r.1)
]

-- The first part of `kfree` on a used chunk: it is free, and joined with a free chunk behind it.
pub join_next : Chunk → List Chunk → Chunk × List Chunk
join_next c [] = (record c { used = false }, [])
join_next c (d ∷ rest) =
    if d.used
    then (record c { used = false }, d ∷ rest)
    else (record c { used = false; length = c.length + d.length }, rest)

-- Its second part: the chunk is joined with a free chunk before it.
pub join_prev : Chunk → Chunk × List Chunk → List Chunk
join_prev p r = if p.used then p ∷ r.0 ∷ r.1 else record p { length = p.length + r.0.length } ∷ r.1

-- `kfree` of the chunk at an address, behind the chunk `p`; `none` where no chunk is there.
pub free_behind : ℕ → Chunk → List Chunk → Option (List Chunk)
unfolding join_next join_prev
free_behind a p [] = none
free_behind a p (c ∷ rest) =
    let later = free_behind a c rest in
    if c.address == a
    then some (if c.used then join_prev p (join_next c rest) else p ∷ c ∷ rest)
    else elim later [ none ↦ none | some h ↦ some (p ∷ h) ]

-- The same from the head of the list on
pub free_from : ℕ → List Chunk → Option (List Chunk)
unfolding free_behind
free_from a [] = none
free_from a (c ∷ rest) =
    if c.address == a
    then some (if c.used then (join_next c rest).0 ∷ (join_next c rest).1 else c ∷ rest)
    else free_behind a c rest

-- `kfree`
pub kfree : ℕ → List Chunk → Option (List Chunk)
unfolding free_from
kfree ptr h = free_from (ptr - kunit) h
