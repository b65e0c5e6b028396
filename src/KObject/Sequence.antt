-- ===== src/KObject/Sequence.antt =====
-- Reads in a row through a kernel object of `basekernel/kernel/kobject.c` that stands for a file, whose
-- bytes `fs_dirent_read` of `basekernel/kernel/fs.c` gives.
use stage_os.Base.{
  ℕ, ◌+◌, ◌-◌, ◌*◌, ◌^◌, ◌<◌, ◌≡◌, ◌∙◌, refl, ap, true, Option, some, List, ◌++◌, min, arith,
}
use stage_os.Fs
use stage_os.Fs.{dirent_read}
use stage_os.Fs.Slice.{slice, slice-append}
use stage_os.Fs.Read.{dirent_read-slice}
use stage_os.KObject.{KObject, Kind, Result, Operations, invalid_request, read, read_target}

-- The results of `fs_dirent_read` as results of `kobject_read`; -1 is the number of `not_found`.
abbrev pub as_result : Fs.Outcome → Result
as_result (Fs.Outcome.bytes n) = Result.done n
as_result Fs.Outcome.invalid_request = Result.failed invalid_request
as_result Fs.Outcome.failed = Result.failed 1

-- The file of an object: its blocks hold the bytes of `c`, and `dirent_read` reads them.
pub record FileOf {S : Type 0} (ops : Operations S) (k : KObject) (s : S) (bs size : ℕ) (c : ℕ → ℕ)
    : Type 0 where
  pub is_file : k.kind ≡ Kind.file
  pub block : S → ℕ → Option (List ℕ)
  pub block_bytes : 0 < bs
  pub blocks : (i : ℕ) → i * bs < size → block s i ≡ some (slice c (i * bs) bs)
  pub reads :
      (offset n : ℕ)
      → ops.dirent_read offset s k.target n ≡ (
        s,
        (dirent_read bs (some block) s true size offset n).0,
        as_result (dirent_read bs (some block) s true size offset n).1,
      )

-- One read gives the bytes from the offset on, and moves the offset behind them.
pub read-slice :
    {S : Type 0} (ops : Operations S) (k : KObject) (s : S) (bs size : ℕ) (c : ℕ → ℕ) (n : ℕ)
    → FileOf ops k s bs size c
    → k.offset + n < 2 ^ 32
    → read ops k n true s ≡ (
      record k { offset = k.offset + min n (size - k.offset) },
      s,
      slice c k.offset (min n (size - k.offset)),
      Result.done (min n (size - k.offset)),
    )
unfolding read
read-slice ops k s bs size c n f small =
    let whole = dirent_read-slice bs f.block s c size k.offset n f.block_bytes f.blocks small in
    rw (f.is_file, f.reads k.offset n, whole, read_target) refl

moved :
    {S : Type 0} (ops : Operations S) (k : KObject) (s : S) (bs size : ℕ) (c : ℕ → ℕ) (offset : ℕ)
    → FileOf ops k s bs size c
    → FileOf ops (record k { offset = offset }) s bs size c
moved ops k s bs size c offset f = record {
  is_file = f.is_file;
  block = f.block;
  block_bytes = f.block_bytes;
  blocks = f.blocks;
  reads = f.reads;
}

-- Two reads in a row through one object give the bytes of one read of both sizes, and leave the object
-- at the same offset, if the blocks of the file can be read and no offset passes 2 ^ 32.
pub read-twice :
    {S : Type 0} (ops : Operations S) (k : KObject) (s : S) (bs size : ℕ) (c : ℕ → ℕ) (m n : ℕ)
    → FileOf ops k s bs size c
    → k.offset + (m + n) < 2 ^ 32
    → ((read ops k m true s).2 ++ (read ops (read ops k m true s).0 n true s).2
        ≡ (read ops k (m + n) true s).2)
      × ((read ops (read ops k m true s).0 n true s).0 ≡ (read ops k (m + n) true s).0)
read-twice ops k s bs size c m n f small =
    let a : ℕ = min m (size - k.offset) in
    let k' : KObject = record k { offset = k.offset + a } in
    let f' = moved ops k s bs size c (k.offset + a) f in
    let first = read-slice ops k s bs size c m f (omega arith) in
    let second = read-slice ops k' s bs size c n f' (omega arith) in
    let both = read-slice ops k s bs size c (m + n) f small in
    let sum : a + min n (size - (k.offset + a)) ≡ min (m + n) (size - k.offset) = omega arith in
    let place : k.offset + a + min n (size - (k.offset + a))
        ≡ k.offset + min (m + n) (size - k.offset) =
      omega arith in
    rw (first, second, both)
      (
        slice-append c k.offset a (min n (size - (k.offset + a))) ∙ ap (slice c k.offset) sum,
        ap (λ o. record k { offset = o }) place,
      )
