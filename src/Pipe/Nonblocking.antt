-- ===== src/Pipe/Nonblocking.antt =====
-- The calls of `basekernel/kernel/pipe.c` that do not sleep.
use stage_os.Base.{
  ℕ, zero, suc, ◌+◌, ◌%◌, ◌<◌, ◌≡◌, ◌≢◌, ◌∙◌, refl, sym, inl, inr, true, false, not, some, List, [],
  ◌∷◌, ◌++◌, arith, ◌==◌, length, take, drop, append-nil, append_assoc, Bool-cases, ==_iff, min,
  take-nil,
}
use stage_os.Ring.{mod-next, span_self, window}
use stage_os.Pipe.{
  Pipe, pipe_size, put, front, advance, Written, has_room, write_nonblock_loop, write_nonblock,
  returns, read_nonblock_loop, read_nonblock,
}
use stage_os.Pipe.Write.{IsValid, contents, room, put-IsValid, contents-put, room-put, room_full}
use stage_os.Pipe.Read.{contents_empty, contents_cons, advance-IsValid}

-- What a read that does not sleep leaves and gives, behind the bytes `got`.
pub record Fetched (p : Pipe) (got : List ℕ) (left : ℕ) (r : List ℕ × Pipe) : Type 0 where
  pub bytes : r.0 ≡ got ++ take left (contents p)
  pub holds : contents r.1 ≡ drop left (contents p)
  pub valid : IsValid r.1

Fetched-nil :
    (got : List ℕ) (left : ℕ) (p : Pipe)
    → IsValid p
    → take left (contents p) ≡ []
    → drop left (contents p) ≡ contents p
    → Fetched p got left (got, record p { flushed = false })
Fetched-nil got left p v t d = record {
  bytes = rw (t, append-nil);
  holds = sym d;
  valid = record { cells = v.cells; read_in = v.read_in; write_in = v.write_in };
}

read_nonblock_loop-Fetched :
    (got : List ℕ) (left : ℕ) (p : Pipe)
    → IsValid p
    → Fetched p got left (read_nonblock_loop got left p)
unfolding read_nonblock_loop
read_nonblock_loop-Fetched got zero p v = Fetched-nil got 0 p v refl refl
read_nonblock_loop-Fetched got (suc left) p v = elim (Bool-cases (p.read_pos == p.write_pos)) [
  | inl e ↦
      let none_left =
        contents_empty p v
          ((==_iff p.write_pos p.read_pos).1 (sym ((==_iff p.read_pos p.write_pos).0 e))) in
      rw e (Fetched-nil got (suc left) p v (rw none_left) (rw none_left))
  | inr e ↦
      let more : (p.write_pos == p.read_pos) ≡ false = ground arith in
      let d =
        read_nonblock_loop-Fetched (got ++ (front p ∷ [])) left (advance p)
          (advance-IsValid p v more) in
      rw e (record {
        bytes =
            rw (contents_cons p v more)
              (d.bytes ∙ append_assoc got (front p ∷ []) (take left (contents (advance p))));
        holds = rw (contents_cons p v more) d.holds;
        valid = d.valid;
      })
]

-- `pipe_read_nonblock` takes the oldest bytes, in order, as many as are asked for and there.
pub read_nonblock_lem :
    (size : ℕ) (p : Pipe)
    → IsValid p
    → (p' : Pipe) × (read_nonblock (some p) true size ≡ (returns (take size (contents p)), some p'))
      × (contents p' ≡ drop size (contents p))
      × IsValid p'
unfolding read_nonblock
read_nonblock_lem size p v =
    let d = read_nonblock_loop-Fetched [] size p v in
    ((read_nonblock_loop [] size p).1, rw d.bytes, d.holds, d.valid)

-- From a read position of 0 the write takes every byte, whether it fits or not, and only moves the
-- write position round the ring.
pub record Taken (p : Pipe) (written : ℕ) (bytes : List ℕ) (r : ℕ × Pipe) : Type 0 where
  pub count : r.0 ≡ written + length bytes
  pub position : r.1.write_pos ≡ (p.write_pos + length bytes) % pipe_size
  pub same_read : r.1.read_pos ≡ 0

write_nonblock_loop-Taken :
    (written : ℕ) (bytes : List ℕ) (p : Pipe)
    → p.read_pos ≡ 0
    → p.write_pos < pipe_size
    → Taken p written bytes (write_nonblock_loop written bytes p)
unfolding write_nonblock_loop has_room put
write_nonblock_loop-Taken written [] p e v = record {
  count = omega arith;
  position = omega arith;
  same_read = e;
}
write_nonblock_loop-Taken written (b ∷ bs) p e v =
    let d = write_nonblock_loop-Taken (written + 1) bs (put b p) e (omega arith) in
    let yes_room : has_room p ≡ true = ground arith in
    rw yes_room (record {
      count = omega (arith, d.count);
      position = omega (arith, d.position);
      same_read = d.same_read;
    })

-- `pipe_write_nonblock` into a valid pipe whose read position is 0 returns the number of all its bytes,
-- and if they run the write position up to the end of the page, the pipe is then empty: all that it
-- held is lost.
pub write_nonblock-lost :
    (bytes : List ℕ) (p : Pipe)
    → IsValid p
    → p.read_pos ≡ 0
    → p.write_pos + length bytes ≡ pipe_size
    → (p' : Pipe) × (write_nonblock (some p) (some bytes)
        ≡ (Written.returns (length bytes), some p'))
      × (contents p' ≡ [])
unfolding write_nonblock window
write_nonblock-lost bytes p v e full =
    let d = write_nonblock_loop-Taken 0 bytes p e v.write_in in
    let count : (write_nonblock_loop 0 bytes p).0 ≡ length bytes = omega (arith, d.count) in
    let start : (write_nonblock_loop 0 bytes p).1.write_pos ≡ 0 = omega (arith, d.position) in
    ((write_nonblock_loop 0 bytes p).1, rw count, rw (start, d.same_read, span_self pipe_size 0))

read_pos-put : (p : Pipe) (b : ℕ) → p.read_pos ≢ 0 → (put b p).read_pos ≢ 0
unfolding put
read_pos-put p b h = h

-- From any other read position the write takes what fits.
pub record Filled (p : Pipe) (written : ℕ) (bytes : List ℕ) (r : ℕ × Pipe) : Type 0 where
  pub count : r.0 ≡ written + min (length bytes) (room p)
  pub holds : contents r.1 ≡ contents p ++ take (room p) bytes
  pub valid : IsValid r.1

has_room-not_full :
    (p : Pipe)
    → IsValid p
    → p.read_pos ≢ 0
    → ((p.write_pos + 1) % pipe_size == p.read_pos) ≡ not (has_room p)
unfolding has_room
has_room-not_full p v ne = rw (mod-next pipe_size p.write_pos v.write_in) (ground arith)

write_nonblock_loop-Filled :
    (written : ℕ) (bytes : List ℕ) (p : Pipe)
    → IsValid p
    → p.read_pos ≢ 0
    → Filled p written bytes (write_nonblock_loop written bytes p)
unfolding write_nonblock_loop
write_nonblock_loop-Filled written [] p v ne = record {
  count = omega arith;
  holds = rw (take-nil (room p), append-nil);
  valid = record { cells = v.cells; read_in = v.read_in; write_in = v.write_in };
}
write_nonblock_loop-Filled written (b ∷ bs) p v ne = elim (Bool-cases (has_room p)) [
  | inr full ↦
      let none_left = room_full p v (rw (has_room-not_full p v ne, full)) in
      rw full (record {
        count = omega (arith, none_left);
        holds = rw (none_left, append-nil);
        valid = record { cells = v.cells; read_in = v.read_in; write_in = v.write_in };
      })
  | inl fits ↦
      let free : ((p.write_pos + 1) % pipe_size == p.read_pos) ≡ false =
        rw (has_room-not_full p v ne, fits) in
      let d =
        write_nonblock_loop-Filled (written + 1) bs (put b p) (put-IsValid p v free b)
          (read_pos-put p b ne) in
      let one : room p ≡ suc (room (put b p)) = omega (arith, room-put p v free b) in
      rw fits (record {
        count = omega (arith, d.count, one);
        holds = rw one (
            d.holds
            ∙ rw (contents-put p v free b)
                (append_assoc (contents p) (b ∷ []) (take (room (put b p)) bs)));
        valid = d.valid;
      })
]

-- `pipe_write_nonblock` into a valid pipe whose read position is not 0 puts as many of its bytes
-- behind the others, in order, as there is room for, and returns their number.
pub write_nonblock_lem :
    (bytes : List ℕ) (p : Pipe)
    → IsValid p
    → p.read_pos ≢ 0
    → (p' : Pipe) × (write_nonblock (some p) (some bytes)
        ≡ (Written.returns (min (length bytes) (room p)), some p'))
      × (contents p' ≡ contents p ++ take (room p) bytes)
      × IsValid p'
unfolding write_nonblock
write_nonblock_lem bytes p v ne =
    let d = write_nonblock_loop-Filled 0 bytes p v ne in
    let count : (write_nonblock_loop 0 bytes p).0 ≡ min (length bytes) (room p) =
      omega (arith, d.count) in
    ((write_nonblock_loop 0 bytes p).1, rw count, d.holds, d.valid)
