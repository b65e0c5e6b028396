-- ===== src/Fs/Tests.antt =====
-- Runs of `fs_dirent_read` and `fs_dirent_write` of `basekernel/kernel/fs.c` on a file in memory, and
-- the theorems at it.
use stage_os.Base.{
  ◌==◌, ℕ, ◌+◌, ◌*◌, ◌≡◌, refl, true, Option, none, some, List, [], ◌∷◌, if◌then◌else◌, arith,
}
use stage_os.Fs.{
  dirent_read, dirent_write, read_loop, write_loop, write_round, merged, clamp, patch, bytes,
  failed,
}
use stage_os.Fs.Traverse.{Dirents, walk, traverse, lookup}
use stage_os.Fs.Balance.{Balanced, walk-Balanced, walk_leaks}
use stage_os.Strings.Tokens.{tokens}
use stage_os.Fs.Slice.{slice}
use stage_os.Fs.Write.{BlockFile, overlay, dirent_write-overlay}
use stage_os.Fs.RoundTrip.{dirent_read-dirent_write}

-- A file that is the function of its bytes, with blocks of four
abbrev read : (ℕ → ℕ) → ℕ → Option (List ℕ)
read c k = some (slice c (k * 4) 4)

abbrev write : (ℕ → ℕ) → ℕ → List ℕ → Option (ℕ → ℕ)
write c k b = some (overlay c (k * 4) b)

abbrev resize : (ℕ → ℕ) → ℕ → ℕ → ℕ
resize c end = c

abbrev content : (ℕ → ℕ) → ℕ → ℕ
content c = c

in_memory : BlockFile 4 100 read write content
in_memory = record {
  reads = λ s k h. refl;
  writes = λ s k b h e. (overlay s (k * 4) b, refl, λ p. refl);
}

abbrev squares : ℕ → ℕ
squares p = p * p

reads_across :
    dirent_read 4 (some read) squares true 9 3 100 ≡ (9 ∷ 16 ∷ 25 ∷ 36 ∷ 49 ∷ 64 ∷ [], bytes 6)
unfolding dirent_read read_loop clamp
reads_across = refl

abbrev broken : (ℕ → ℕ) → ℕ → Option (List ℕ)
broken c k = if k == 1 then none else read c k

stops_at_a_bad_block : dirent_read 4 (some broken) squares true 20 2 10 ≡ (4 ∷ 9 ∷ [], bytes 2)
unfolding dirent_read read_loop clamp
stops_at_a_bad_block = refl

fails_at_once : dirent_read 4 (some broken) squares true 20 5 10 ≡ ([], failed)
unfolding dirent_read read_loop clamp
fails_at_once = refl

writes_count :
    (dirent_write 4 (some read) (some write) resize squares 9 3 (7 ∷ 7 ∷ 7 ∷ 7 ∷ 7 ∷ 7 ∷ [])).1
    ≡ bytes 6
unfolding dirent_write write_loop write_round merged patch
writes_count = refl

dirent_write-overlay_example :
    (s' : ℕ → ℕ) × (dirent_write 4 (some read) (some write) resize squares 9 3 (7 ∷ 8 ∷ [])
      ≡ (s', bytes 2))
    × ((p : ℕ) → s' p ≡ overlay squares 3 (7 ∷ 8 ∷ []) p)
dirent_write-overlay_example =
    dirent_write-overlay 4 100 read write content (omega arith) in_memory resize squares 9 3
      (7 ∷ 8 ∷ []) (λ t end. refl) (omega arith) (omega arith)

dirent_read-dirent_write_example :
    dirent_read 4
      (some read)
      (dirent_write 4 (some read) (some write) resize squares 9 3 (7 ∷ 8 ∷ [])).0
      true
      9
      3
      2
    ≡ (7 ∷ 8 ∷ [], bytes 2)
dirent_read-dirent_write_example =
    dirent_read-dirent_write 4 100 read write content resize squares 9 9 3 (7 ∷ 8 ∷ [])
      (omega arith) in_memory (λ t end. refl) (omega arith) (omega arith) (omega arith)

-- Every directory has one entry, `a`, and the directories are numbered.
abbrev chain_of : ℕ → List ℕ → Option ℕ
chain_of n (c ∷ []) = if c == b'a' then some (n + 1) else none
chain_of n name = none

-- One directory is open, with one reference.
abbrev one_open : Dirents ℕ
one_open = record { entry = λ i. 0; refs = λ i. if i == 0 then 1 else 0; count = 1 }

-- The path "/a//a/" has two words, and the directory between them is closed again.
two_words :
    tokens 7 (b'/' ∷ []) (b'/' ∷ b'a' ∷ b'/' ∷ b'/' ∷ b'a' ∷ b'/' ∷ [])
    ≡ (b'a' ∷ []) ∷ (b'a' ∷ []) ∷ []
unfolding tokens
two_words = refl

goes_down : (traverse chain_of 0 (b'a' ∷ b'/' ∷ b'a' ∷ []) one_open).0 ≡ some 2
unfolding traverse tokens walk lookup
goes_down = refl

closes : (walk chain_of 0 0 ((b'a' ∷ []) ∷ (b'a' ∷ []) ∷ []) one_open).1.refs 1 ≡ 0
unfolding walk lookup
closes = refl

walk-Balanced_example :
    Balanced 0 1 one_open.refs 2 (walk chain_of 0 0 ((b'a' ∷ []) ∷ (b'a' ∷ []) ∷ []) one_open).1
unfolding walk lookup
walk-Balanced_example =
    walk-Balanced chain_of 0 ((b'a' ∷ []) ∷ (b'a' ∷ []) ∷ []) one_open (refl, (refl, tt))
      (omega arith)

walk_leaks_example : (walk chain_of 0 0 ((b'.' ∷ []) ∷ (b'x' ∷ []) ∷ []) one_open).1.refs 0 ≡ 2
walk_leaks_example =
    walk_leaks chain_of 0 (b'.' ∷ []) (b'x' ∷ []) [] one_open refl (refl, tt) (omega arith)
