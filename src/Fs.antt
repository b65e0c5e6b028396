-- ===== src/Fs.antt =====
-- `fs_dirent_read` and `fs_dirent_write` of `basekernel/kernel/fs.c`: bytes of a file through the block
-- operations of its file system, which are a parameter: a state, and functions that read and write one
-- block of it. The blocks have `bs` bytes, and 0 is no size of a block.
pub mod Slice
pub mod Read
pub mod Write
pub mod RoundTrip
pub mod Traverse
pub mod Balance
mod Tests
use stage_os.Base.{
  ℕ, zero, suc, ◌+◌, ◌-◌, ◌*◌, ◌/◌, ◌%◌, ◌^◌, Bool, true, false, Option, none, some, List, [], ◌∷◌,
  ◌++◌, ◌==◌, ltb, leb, if◌then◌else◌, length, take, drop,
}

-- What a function returns: a count of bytes, or one of its errors
pub data Outcome : Type 0 where
  bytes : ℕ → Outcome
  invalid_request failed : Outcome

-- How many bytes one round moves
abbrev pub chunk : (bs offset length : ℕ) → ℕ
chunk bs offset n =
    if offset % bs == 0
    then (if leb bs n then bs else n)
    else if leb (bs - offset % bs) n
    then bs - offset % bs
    else n

-- The bytes that a round copies out of a block
abbrev pub part : (bs offset length : ℕ) → List ℕ → List ℕ
part bs offset n b =
    if offset % bs == 0
    then (if leb bs n then b else take n b)
    else take (chunk bs offset n) (drop (offset % bs) b)

-- `memcpy(&t[at], s, length)` for a `length` that is the length of `s`
unfoldable pub patch : List ℕ → ℕ → List ℕ → List ℕ
patch [] at s = []
patch (x ∷ t) zero [] = x ∷ t
patch (x ∷ t) zero (c ∷ s) = c ∷ patch t zero s
patch (x ∷ t) (suc at) s = x ∷ patch t at s

-- The result after the loop: a failure counts only if no byte was moved.
abbrev pub outcome : ℕ → Bool → Outcome
outcome zero true = failed
outcome (suc total) true = bytes (suc total)
outcome total false = bytes total

-- The number of bytes that are asked for, cut at the end of the file; `offset + length` is a sum of
-- 32-bit words.
unfoldable pub clamp : (size offset length : ℕ) → ℕ
clamp size offset n =
    if ltb size offset then 0 else if ltb size ((offset + n) % 2 ^ 32) then size - offset else n

module _ {S : Type 0} (bs : ℕ) where
  -- The loop of `fs_dirent_read`: the bytes in the buffer, and whether a block could not be read. A
  -- round moves a byte at least, so `length` rounds are enough.
  unfoldable pub read_loop :
      (S → ℕ → Option (List ℕ)) → S → (fuel offset length : ℕ) → List ℕ × Bool
  read_loop read s zero offset n = ([], false)
  read_loop read s (suc fuel) offset n =
      let rest =
        read_loop read s fuel ((offset + chunk bs offset n) % 2 ^ 32) (n - chunk bs offset n) in
      if n == 0 then ([], false) else elim (read s (offset / bs)) [
        | none ↦ ([], true)
        | some b ↦ (part bs offset n b ++ rest.0, rest.1)
      ]

  -- `fs_dirent_read`: the bytes in the buffer, and the result. `page` tells whether `page_alloc` gave a
  -- page.
  unfoldable pub dirent_read :
      Option (S → ℕ → Option (List ℕ))
      → S
      → (page : Bool) → (size offset length : ℕ) → List ℕ × Outcome
  dirent_read none s page size offset n = ([], invalid_request)
  dirent_read (some read) s page size offset n =
      let m = clamp size offset n in
      let r = read_loop read s m offset m in
      if ltb size offset
      then ([], bytes 0)
      else if page
      then (r.0, outcome (length r.0) r.1)
      else ([], failed)

  -- The block that a round writes; in the middle of a block the rest of it is read first.
  unfoldable pub merged : (S → ℕ → Option (List ℕ)) → S → (offset : ℕ) → List ℕ → Option (List ℕ)
  merged read s offset buffer =
      let patched : Option (List ℕ) = elim (read s (offset / bs)) [
        | none ↦ none
        | some b ↦ some (patch b (offset % bs) (take (chunk bs offset (length buffer)) buffer))
      ] in
      if offset % bs == 0
      then (if leb bs (length buffer) then some (take bs buffer) else patched)
      else patched

  -- One round of `fs_dirent_write`: the new state
  unfoldable pub write_round :
      (S → ℕ → Option (List ℕ)) → (S → ℕ → List ℕ → Option S) → S → (offset : ℕ) → List ℕ → Option S
  write_round read write s offset buffer = elim (merged read s offset buffer) [
    | none ↦ none
    | some b ↦ write s (offset / bs) b
  ]

  -- Its loop: the bytes that were written, the state, and whether a round failed. `length` rounds are
  -- enough.
  unfoldable pub write_loop :
      (S → ℕ → Option (List ℕ))
      → (S → ℕ → List ℕ → Option S)
      → S
      → (fuel offset : ℕ) → List ℕ
      → ℕ × S × Bool
  write_loop read write s zero offset buffer = (0, s, false)
  write_loop read write s (suc fuel) offset [] = (0, s, false)
  write_loop read write s (suc fuel) offset (c ∷ buffer) =
      let n = chunk bs offset (length (c ∷ buffer)) in
      elim (write_round read write s offset (c ∷ buffer)) [
        | none ↦ (0, s, true)
        | some s' ↦
            let r = write_loop read write s' fuel ((offset + n) % 2 ^ 32) (drop n (c ∷ buffer)) in
            (n + r.0, r.1, r.2)
      ]

  -- `fs_dirent_write`: the state and the result. A file that ends before the last byte is resized.
  unfoldable pub dirent_write :
      Option (S → ℕ → Option (List ℕ))
      → Option (S → ℕ → List ℕ → Option S)
      → (S → ℕ → S)
      → S
      → (size offset : ℕ) → List ℕ
      → S × Outcome
  dirent_write (some read) (some write) resize s size offset buffer =
      let end : ℕ = (offset + length buffer) % 2 ^ 32 in
      let s' = (if ltb size end then resize s end else s) in
      let r = write_loop read write s' (length buffer) offset buffer in (r.1, outcome r.0 r.2)
  dirent_write none write resize s size offset buffer = (s, invalid_request)
  dirent_write (some read) none resize s size offset buffer = (s, invalid_request)
