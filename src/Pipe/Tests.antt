-- ===== src/Pipe/Tests.antt =====
-- The pipes of `basekernel/kernel/pipe.c` at a few bytes.
use stage_os.Base.{ℕ, ◌≡◌, refl, true, false, some, List, [], ◌∷◌, ◌++◌, replicate, arith}
use stage_os.Pipe.{Pipe, Written, Got, write, read, write_nonblock}
use stage_os.Pipe.Write.{IsValid, contents, Ended, write_lem}
use stage_os.Pipe.Read.{Fetched, read_lem}
use stage_os.Pipe.Nonblocking.{write_nonblock-lost}

abbrev empty : Pipe
empty = record {
  buffer = replicate 4096 0;
  read_pos = 0;
  write_pos = 0;
  flushed = false;
  refcount = 1;
  queue = 5 ∷ [];
}

empty-IsValid : IsValid empty
empty-IsValid = record { cells = refl; read_in = omega arith; write_in = omega arith }

-- The bytes 1, 2 are to be read, across the end of the page.
abbrev wrapped : Pipe
wrapped = record empty {
  buffer = 2 ∷ (replicate 4094 0 ++ (1 ∷ []));
  read_pos = 4095;
  write_pos = 1;
}

wrapped-IsValid : IsValid wrapped
wrapped-IsValid = record { cells = refl; read_in = omega arith; write_in = omega arith }

write_wakes : (write 3 (some empty) (some (8 ∷ 9 ∷ []))).2 ≡ 5 ∷ []
unfolding write
write_wakes = refl

read_round_the_end : (read 3 (some wrapped) true 2).0 ≡ Got.returns (1 ∷ 2 ∷ [])
unfolding read
read_round_the_end = refl

read_sleeps : (read 3 (some wrapped) true 5).0 ≡ Got.sleeps (1 ∷ 2 ∷ []) 3
unfolding read
read_sleeps = refl

write_lem_example :
    (r : Written × Pipe × List ℕ) × (write 3 (some empty) (some (8 ∷ 9 ∷ []))
      ≡ (r.0, some r.1, r.2))
    × Ended empty 0 (8 ∷ 9 ∷ []) r
write_lem_example = write_lem 3 (8 ∷ 9 ∷ []) empty empty-IsValid

read_lem_example :
    (r : Got × Pipe × List ℕ) × (read 3 (some wrapped) true 5 ≡ (r.0, some r.1, r.2))
    × Fetched wrapped [] 5 r
read_lem_example = read_lem 3 5 wrapped wrapped-IsValid

-- The page but for its last byte is held, and one more byte empties the pipe.
abbrev nearly_full : Pipe
nearly_full = record empty { write_pos = 4095 }

write_nonblock-lost_example :
    (p' : Pipe) × (write_nonblock (some nearly_full) (some (8 ∷ [])) ≡ (Written.returns 1, some p'))
    × (contents p' ≡ [])
write_nonblock-lost_example =
    write_nonblock-lost (8 ∷ []) nearly_full
      (record { cells = refl; read_in = omega arith; write_in = omega arith }) refl refl
