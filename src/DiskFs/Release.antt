-- ===== src/DiskFs/Release.antt =====
-- `diskfs_data_block_free` of `basekernel/kernel/diskfs.c` after `diskfs_data_block_alloc`.
use stage_os.Base.{
  ℕ, ◌+◌, ◌-◌, ◌*◌, ◌/◌, ◌%◌, ◌^◌, ◌<◌, ◌≡◌, ◌≢◌, inl, inr, refl, sym, ap, Bool, true, false, ◌==◌,
  leb, if◌then◌else◌, ==-refl, ◌∙◌, Bool-cases, all_below, all_below-at, ◌&&◌, arith,
}
use stage_os.DiskFs.Layout.{Block, block_size, put8, Superblock, block_write}
use stage_os.DiskFs.Bitmap.{bit, data_block_alloc, data_block_free}
use stage_os.DiskFs.Search.{Outcome, data_block_alloc-Outcome}

set_test : ℕ → ℕ → ℕ → Bool
set_test byte k m =
    if bit byte k == 0
    then (bit ((byte + 2 ^ k) % 256) m == (if k == m then 1 else bit byte m))
      && ((byte + 2 ^ k) % 256 - 2 ^ k == byte)
    else true

set_table : all_below 256 (λ byte. all_below 8 (λ k. all_below 8 (set_test byte k))) ≡ true
unfolding all_below set_test
set_table = refl

-- The bits of a byte, when a clear bit is set, and the byte when the bit is cleared again
pub bit-set :
    (byte k m : ℕ)
    → byte < 256
    → k < 8
    → m < 8
    → bit byte k ≡ 0
    → (bit ((byte + 2 ^ k) % 256) m ≡ (if k == m then 1 else bit byte m))
      × ((byte + 2 ^ k) % 256 - 2 ^ k ≡ byte)
unfolding set_test
bit-set byte k m b hk hm h =
    let row =
      all_below-at 256 (λ byte. all_below 8 (λ k. all_below 8 (set_test byte k))) byte set_table
        b in
    let cell = all_below-at 8 (λ k. all_below 8 (set_test byte k)) k row hk in
    let t = all_below-at 8 (set_test byte k) m cell hm in ground arith

pub put8_self : (b : Block) (j v : ℕ) → put8 b j v j ≡ v % 256
put8_self b j v = rw (==-refl j) refl

put8-undo : (b : Block) (j v w p : ℕ) → w % 256 ≡ b j → put8 (put8 b j v) j w p ≡ b p
put8-undo b j v w p h = elim (Bool-cases (j == p)) [
  | inl e ↦ let here : j ≡ p = ground arith in ground (arith, ap b here)
  | inr e ↦ ground arith
]

clear-set :
    (b : Block) (j k p : ℕ)
    → b j < 256
    → k < 8
    → bit (b j) k ≡ 0
    → put8
        (put8 b j (b j + 2 ^ k))
        j
        (put8 b j (b j + 2 ^ k) j - bit (put8 b j (b j + 2 ^ k) j) k * 2 ^ k)
        p
      ≡ b p
clear-set b j k p small klt clear =
    put8-undo b j (b j + 2 ^ k) _ p
      (rw (put8_self b j (b j + 2 ^ k), is_set) (omega (arith, same.1)))
  where
    same :
        (bit ((b j + 2 ^ k) % 256) k ≡ (if k == k then 1 else bit (b j) k))
        × ((b j + 2 ^ k) % 256 - 2 ^ k ≡ b j)
    same = bit-set (b j) k k small klt klt clear

    is_set : bit ((b j + 2 ^ k) % 256) k ≡ 1
    is_set = rw (==-refl k) at same.0

-- Freeing a number below 4096 whose bit was just set gives every byte back.
free-set :
    (s : Superblock) (junk : Block) (disk : ℕ → Block) (j k : ℕ)
    → ((m p : ℕ) → disk m p < 256)
    → 0 < s.bitmap_blocks
    → j < 512
    → k < 8
    → bit (disk (s.bitmap_start + 0) j) k ≡ 0
    → (m p : ℕ)
    → data_block_free s junk
        (block_write disk
          (s.bitmap_start + 0)
          (put8 (disk (s.bitmap_start + 0)) j (disk (s.bitmap_start + 0) j + 2 ^ k)))
        (j * 8 + k)
        m
        p
      ≡ disk m p
unfolding data_block_free
free-set s junk disk j k bytes some_block jlt klt clear m p =
    let block : (j * 8 + k) / block_size ≡ 0 = omega arith in
    let byte : (j * 8 + k) % block_size / 8 ≡ j = omega arith in
    let place : (j * 8 + k) % block_size % 8 ≡ k = omega arith in
    let there : leb s.bitmap_blocks 0 ≡ false = ground arith in
    elim (Bool-cases (m == s.bitmap_start + 0)) [
      | inl e ↦
          let here : m ≡ s.bitmap_start + 0 = ground arith in
          rw (block, byte, place, there, ==-refl, e, data_block_free)
            (clear-set (disk (s.bitmap_start + 0)) j k p (bytes (s.bitmap_start + 0) j) klt clear
              ∙ ap (λ m. disk m p) (sym here))
      | inr e ↦ rw (block, byte, place, there, ==-refl, e, data_block_free) refl
    ]

-- A number above 0 and below 4096 that `diskfs_data_block_alloc` gave is freed again: the disk is as
-- it was before. The disk holds bytes, and the volume has a bitmap block.
pub data_block_free-alloc :
    (s : Superblock) (junk : Block) (disk : ℕ → Block)
    → ((m p : ℕ) → disk m p < 256)
    → (data_block_alloc s disk).0 ≢ 0
    → (data_block_alloc s disk).0 < block_size
    → (m p : ℕ)
    → data_block_free s junk (data_block_alloc s disk).1 (data_block_alloc s disk).0 m p ≡ disk m p
data_block_free-alloc s junk disk bytes nz low =
    restore (data_block_alloc s disk) (data_block_alloc-Outcome s disk) nz low
  where
    restore :
        (r : ℕ × (ℕ → Block))
        → Outcome s disk s.bitmap_blocks 0 r
        → r.0 ≢ 0
        → r.0 < block_size
        → (m p : ℕ) → data_block_free s junk r.1 r.0 m p ≡ disk m p
    restore r (inl o) nz low m p = absurd (nz o.0)
    restore r (inr (at, j, k, a, b, jlt, klt, clear, nz', lt, e, e')) nz low m p =
        let first : at ≡ 0 = omega arith in
        let number : r.0 ≡ j * 8 + k = omega arith in
        rw (number, e', first)
          (free-set s junk disk j k bytes (omega arith) (omega arith) klt (rw first at clear) m p)
