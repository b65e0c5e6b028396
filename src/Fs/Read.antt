-- ===== src/Fs/Read.antt =====
-- `fs_dirent_read` of `basekernel/kernel/fs.c` reads the bytes of the file.
use stage_os.Base.{
  ℕ, zero, suc, ◌+◌, ◌-◌, ◌*◌, ◌/◌, ◌%◌, ◌^◌, ◌<◌, ◌≤◌, ◌≡◌, min, refl, ap, ap₂, ◌∙◌, Bool, true,
  false, Option, some, List, ◌++◌, ◌==◌, ltb, leb, if◌then◌else◌, take, Bool-cases, ==-ne, inl, inr,
  ltb→lt, ge→ltb, arith,
}
use stage_os.Fs.{read_loop, dirent_read, chunk, part, clamp, bytes, outcome}
use stage_os.Fs.Slice.{slice, length-slice, take-slice, drop-slice, slice-append}

pub mod_lt : (a b : ℕ) → 0 < b → a % b < b
mod_lt a b h = grind arith

pub div_mod : (a b : ℕ) → 0 < b → a / b * b + a % b ≡ a
div_mod a b h = grind arith

-- A round moves a byte at least, and no more than asked for or than stand in the block.
pub chunk_bounds :
    (bs offset n : ℕ)
    → 0 < bs
    → 0 < n
    → (0 < chunk bs offset n) × (chunk bs offset n ≤ n) × (offset % bs + chunk bs offset n ≤ bs)
chunk_bounds bs offset n pos some_bytes = let below = mod_lt offset bs pos in ground arith

-- What a round copies out of a block of the file
part-slice :
    (c : ℕ → ℕ) (bs offset n : ℕ)
    → 0 < bs
    → 0 < n
    → part bs offset n (slice c (offset / bs * bs) bs) ≡ slice c offset (chunk bs offset n)
part-slice c bs offset n pos some_bytes =
    let below = mod_lt offset bs pos in
    let place = div_mod offset bs pos in
    elim (Bool-cases (offset % bs == 0)) [
      | inl aligned ↦
          let start : offset / bs * bs ≡ offset = ground arith in
          elim (Bool-cases (leb bs n)) [
            | inl whole ↦ rw (aligned, whole) (ap (λ q. slice c q bs) start)
            | inr less ↦
                rw (aligned, less)
                  (take-slice c (offset / bs * bs) bs n (ground arith)
                    ∙ ap (λ q. slice c q n) start)
          ]
      | inr within ↦
          let m : ℕ = (if leb (bs - offset % bs) n then bs - offset % bs else n) in
          let fits : m ≤ bs - offset % bs = ground arith in
          rw within (
            ap (take m) (drop-slice c (offset / bs * bs) bs (offset % bs) (omega arith))
            ∙ take-slice c (offset / bs * bs + offset % bs) (bs - offset % bs) m fits
            ∙ ap (λ q. slice c q m) place)
    ]

-- The loop reads what it is asked for, if every block of the file can be read up to there.
read_loop-slice :
    {S : Type 0} (bs : ℕ) (read : S → ℕ → Option (List ℕ)) (s : S) (c : ℕ → ℕ) (end : ℕ)
    → 0 < bs
    → ((k : ℕ) → k * bs < end → read s k ≡ some (slice c (k * bs) bs))
    → (fuel offset n : ℕ) → n ≤ fuel
    → offset + n ≤ end
    → offset + n < 2 ^ 32
    → read_loop bs read s fuel offset n ≡ (slice c offset n, false)
unfolding read_loop
read_loop-slice bs read s c end pos reads zero offset zero h fits small = refl
read_loop-slice bs read s c end pos reads zero offset (suc n) h fits small = absurd (omega arith)
read_loop-slice bs read s c end pos reads (suc fuel) offset zero h fits small = refl
read_loop-slice bs read s c end pos reads (suc fuel) offset (suc n) h fits small =
    let bound = chunk_bounds bs offset (suc n) pos (omega arith) in
    let place = div_mod offset bs pos in
    let got = reads (offset / bs) (omega arith) in
    let left : ℕ = suc n - chunk bs offset (suc n) in
    let next : (offset + chunk bs offset (suc n)) % 2 ^ 32 ≡ offset + chunk bs offset (suc n) =
      omega arith in
    let rest =
      ap (λ o. read_loop bs read s fuel o left) next
      ∙ read_loop-slice bs read s c end pos reads fuel (offset + chunk bs offset (suc n)) left
          (omega arith) (omega arith) (omega arith) in
    let total : chunk bs offset (suc n) + (suc n - chunk bs offset (suc n)) ≡ suc n = omega arith in
    rw (==-ne (suc n) 0 (omega arith), got, read_loop)
      (ap₂ (λ (l : List ℕ) (b : Bool). (l, b))
        (ap₂ (λ (a b : List ℕ). a ++ b) (part-slice c bs offset (suc n) pos (omega arith))
            (ap (λ r. r.0) rest)
          ∙ slice-append c offset (chunk bs offset (suc n)) (suc n - chunk bs offset (suc n))
          ∙ ap (slice c offset) total)
        (ap (λ r. r.1) rest))

pub outcome_fine : (n : ℕ) → outcome n false ≡ bytes n
outcome_fine zero = refl
outcome_fine (suc n) = refl

clamp-min :
    (size offset n : ℕ)
    → offset ≤ size
    → offset + n < 2 ^ 32
    → clamp size offset n ≡ min n (size - offset)
unfolding clamp
clamp-min size offset n le small =
    let sum : (offset + n) % 2 ^ 32 ≡ offset + n = omega arith in
    rw (ge→ltb size offset le, sum, clamp)
      (elim (Bool-cases (ltb size (offset + n))) [
        | inl cut ↦ rw cut (omega (arith, ltb→lt size (offset + n) cut))
        | inr whole ↦ let le' : offset + n ≤ size = ground arith in rw whole (omega arith)
      ])

-- `fs_dirent_read` of a file whose blocks can all be read gives the bytes of the file from `offset` on,
-- as many as asked for or as there are, and their number; behind the end it gives nothing. A page can
-- be allocated, and `offset + length` fits 32 bits.
pub dirent_read-slice :
    {S : Type 0} (bs : ℕ) (read : S → ℕ → Option (List ℕ)) (s : S) (c : ℕ → ℕ) (size offset n : ℕ)
    → 0 < bs
    → ((k : ℕ) → k * bs < size → read s k ≡ some (slice c (k * bs) bs))
    → offset + n < 2 ^ 32
    → dirent_read bs (some read) s true size offset n
      ≡ (slice c offset (min n (size - offset)), bytes (min n (size - offset)))
unfolding dirent_read
dirent_read-slice bs read s c size offset n pos reads small = elim (Bool-cases (ltb size offset)) [
  | inl behind ↦
      let none_left : min n (size - offset) ≡ 0 = omega (arith, ltb→lt size offset behind) in
      rw (behind, none_left, dirent_read) refl
  | inr inside ↦
      let le : offset ≤ size = ground arith in
      let m = clamp-min size offset n le small in
      let r =
        read_loop-slice bs read s c size pos reads (min n (size - offset)) offset
          (min n (size - offset)) (omega arith) (omega arith) (omega arith) in
      rw (inside, m, r, length-slice c offset (min n (size - offset)), dirent_read)
        (ap (λ o. (slice c offset (min n (size - offset)), o))
          (outcome_fine (min n (size - offset))))
]
