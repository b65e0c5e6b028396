-- ===== src/Fs/RoundTrip.antt =====
-- `fs_dirent_read` after `fs_dirent_write` of `basekernel/kernel/fs.c`.
use stage_os.Base.{
  ℕ, suc, ◌+◌, ◌-◌, ◌^◌, ◌<◌, ◌≤◌, ◌≡◌, min, refl, ap, ap₂, ◌∙◌, fun_ext, true, Option, some, List,
  [], ◌∷◌, length, get_or, arith,
}
use stage_os.Fs.{dirent_read, dirent_write, bytes}
use stage_os.Fs.Slice.{slice}
use stage_os.Fs.Read.{dirent_read-slice}
use stage_os.Fs.Write.{BlockFile, overlay, dirent_write-overlay}

slice-get_or :
    (d : ℕ → ℕ) (at : ℕ) (b : List ℕ)
    → ((i : ℕ) → i < length b → d (at + i) ≡ get_or b i 0)
    → slice d at (length b) ≡ b
slice-get_or d at [] h = refl
slice-get_or d at (c ∷ b) h =
    ap₂ (λ x xs. x ∷ xs) (ap d (omega arith) ∙ h 0 (omega arith))
      (slice-get_or d (at + 1) b (λ i lt. ap d (omega arith) ∙ h (suc i) (omega arith)))

-- What was laid over a place stands there.
slice-overlay : (c : ℕ → ℕ) (at : ℕ) (b : List ℕ) → slice (overlay c at b) at (length b) ≡ b
slice-overlay c at b = slice-get_or (overlay c at b) at b (λ i lt.
    let place : at + i - at ≡ i = omega arith in ground (arith, ap (λ j. get_or b j 0) place))

-- `fs_dirent_read` gives back the bytes that `fs_dirent_write` wrote, and their number, if the blocks of
-- the file can be read and written, resizing changes no byte, and the file has its new size, of less
-- than 2 ^ 32.
pub dirent_read-dirent_write :
    {S : Type 0} (bs limit : ℕ) (read : S → ℕ → Option (List ℕ)) (write : S → ℕ → List ℕ → Option S)
    (content : S → ℕ → ℕ) (resize : S → ℕ → S) (s : S) (size size' offset : ℕ) (b : List ℕ)
    → 0 < bs
    → BlockFile bs limit read write content
    → ((t : S) (end : ℕ) → content (resize t end) ≡ content t)
    → offset + length b ≤ size'
    → size' ≤ limit
    → size' < 2 ^ 32
    → dirent_read bs
        (some read)
        (dirent_write bs (some read) (some write) resize s size offset b).0
        true
        size'
        offset
        (length b)
      ≡ (b, bytes (length b))
dirent_read-dirent_write bs limit read write content resize s size size' offset b pos file keeps
      inside fits small =
    let (s', done, after) =
      dirent_write-overlay bs limit read write content pos file resize s size offset b keeps
        (omega arith) (omega arith) in
    let now : content s' ≡ overlay (content s) offset b = fun_ext after in
    let count : min (length b) (size' - offset) ≡ length b = omega arith in
    ap (λ r. dirent_read bs (some read) r.0 true size' offset (length b)) done
    ∙ dirent_read-slice bs read s' (content s') size' offset (length b) pos
        (λ k lt. file.reads s' k (omega arith)) (omega arith)
    ∙ ap (λ n. (slice (content s') offset n, bytes n)) count
    ∙ ap (λ l. (l, bytes (length b)))
        (ap (λ d. slice d offset (length b)) now ∙ slice-overlay (content s) offset b)
