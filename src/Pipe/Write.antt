-- ===== src/Pipe/Write.antt =====
-- The blocking write of `basekernel/kernel/pipe.c` against the bytes that the pipe holds.
use stage_os.Base.{
  ℕ, suc, ◌+◌, ◌-◌, ◌%◌, ◌≤◌, ◌<◌, ◌≡◌, ◌≢◌, ◌∙◌, refl, ap, sym, inl, inr, Bool, true, false, some,
  List, [], ◌∷◌, ◌++◌, arith, ◌==◌, if◌then◌else◌, length, take, drop, length-set, length-append,
  take-nil, append-nil, append_assoc, Bool-cases, ==_iff, leb,
}
use stage_os.Ring.{
  span, next, mod-next, span-next_to, span_full, span_not_full, window, length-window, window-snoc,
}
use stage_os.Pipe.{Pipe, pipe_size, put, Written, returns, sleeps, write_loop, write}

pub record IsValid (p : Pipe) : Type 0 where
  pub cells : length p.buffer ≡ pipe_size
  pub read_in : p.read_pos < pipe_size
  pub write_in : p.write_pos < pipe_size

-- The bytes that are written and not read, in order.
abbrev pub contents : Pipe → List ℕ
contents p = window p.buffer 0 pipe_size p.read_pos (span pipe_size p.read_pos p.write_pos)

-- The bytes that still fit: one cell stays free.
pub room : Pipe → ℕ
room p = pipe_size - 1 - length (contents p)

pub room_empty : (p : Pipe) → contents p ≡ [] → (n : ℕ) → n < pipe_size → n ≤ room p
unfolding room
room_empty p e n h = omega (arith, ap length e)

module _ (p : Pipe) (v : IsValid p) where
  pub length-contents : length (contents p) ≡ span pipe_size p.read_pos p.write_pos
  length-contents =
      length-window p.buffer 0 pipe_size p.read_pos (span pipe_size p.read_pos p.write_pos)

  next_write : (p.write_pos + 1) % pipe_size ≡ next pipe_size p.write_pos
  next_write = mod-next pipe_size p.write_pos v.write_in

  pub room_full : ((p.write_pos + 1) % pipe_size == p.read_pos) ≡ true → room p ≡ 0
  unfolding room
  room_full e = omega (
    arith,
    length-contents,
    span_full pipe_size p.read_pos p.write_pos v.read_in v.write_in
        (sym next_write ∙ (==_iff ((p.write_pos + 1) % pipe_size) p.read_pos).0 e),
  )

  module _ (free : ((p.write_pos + 1) % pipe_size == p.read_pos) ≡ false) where
    apart : next pipe_size p.write_pos ≢ p.read_pos
    apart h = cc ((==_iff ((p.write_pos + 1) % pipe_size) p.read_pos).1 (next_write ∙ h), free)

    pub put-IsValid : (b : ℕ) → IsValid (put b p)
    unfolding put
    put-IsValid b = ground (arith, length-set p.buffer p.write_pos b)

    -- A byte that is put goes behind the others.
    pub contents-put : (b : ℕ) → contents (put b p) ≡ contents p ++ (b ∷ [])
    unfolding put
    contents-put b =
        let more : span pipe_size p.read_pos (next pipe_size p.write_pos)
            ≡ suc (span pipe_size p.read_pos p.write_pos) =
          omega (arith, span-next_to pipe_size p.read_pos p.write_pos v.read_in v.write_in apart) in
        rw (next_write, more)
          (window-snoc p.buffer 0 b pipe_size (span pipe_size p.read_pos p.write_pos) p.read_pos
            p.write_pos (omega (arith, v.cells)) v.read_in v.write_in refl)

    pub room-put : (b : ℕ) → room (put b p) + 1 ≡ room p
    unfolding room
    room-put b = omega (
      arith,
      length-contents,
      ap length (contents-put b),
      length-append (contents p) (b ∷ []),
      span_not_full pipe_size p.read_pos p.write_pos v.read_in v.write_in apart,
    )

-- How a blocking write ends that has `bytes` left after `written` bytes: it takes as many as there is
-- room for; if that is not all, it returns early from a flushed pipe, and sleeps otherwise.
pub record Ended (p : Pipe) (written : ℕ) (bytes : List ℕ) (r : Written × Pipe × List ℕ)
    : Type 0 where
  pub outcome : r.0 ≡ (
      if leb (length bytes) (room p)
      then returns (written + length bytes)
      else if p.flushed
      then returns (written + room p)
      else sleeps (written + room p) (drop (room p) bytes))
  pub holds : contents r.1 ≡ contents p ++ take (room p) bytes
  pub woken : r.2 ≡ (if leb (length bytes) (room p) then p.queue else [])
  pub valid : IsValid r.1
  pub unflushed : r.1.flushed ≡ false

module _ (pid : ℕ) where
  Ended-nil :
      (written : ℕ) (p : Pipe) → IsValid p → Ended p written [] (write_loop pid written [] p)
  unfolding write_loop
  Ended-nil written p v = record {
    outcome = ground arith;
    holds = rw (take-nil (room p), append-nil);
    woken = ground arith;
    valid = record { cells = v.cells; read_in = v.read_in; write_in = v.write_in };
    unflushed = refl;
  }

  Ended-full :
      (written b : ℕ) (bs : List ℕ) (p : Pipe)
      → IsValid p
      → ((p.write_pos + 1) % pipe_size == p.read_pos) ≡ true
      → Ended p written (b ∷ bs) (write_loop pid written (b ∷ bs) p)
  unfolding write_loop
  Ended-full written b bs p v e = rw e (stopped (room_full p v e) p.flushed refl)
    where
      stopped :
          room p ≡ 0
          → (f : Bool) → p.flushed ≡ f
          → Ended p written (b ∷ bs) (
              if f
              then (returns written, record p { flushed = false }, [])
              else (sleeps written (b ∷ bs), record p { queue = p.queue ++ (pid ∷ []) }, []))
      stopped z true h = record {
        outcome = rw (z, h) (ground arith);
        holds = rw (z, append-nil);
        woken = rw z (ground arith);
        valid = record { cells = v.cells; read_in = v.read_in; write_in = v.write_in };
        unflushed = refl;
      }
      stopped z false h = record {
        outcome = rw (z, h) (ground arith);
        holds = rw (z, append-nil);
        woken = rw z (ground arith);
        valid = record { cells = v.cells; read_in = v.read_in; write_in = v.write_in };
        unflushed = h;
      }

  Ended-cons :
      (written b : ℕ) (bs : List ℕ) (p : Pipe) (v : IsValid p)
      → ((p.write_pos + 1) % pipe_size == p.read_pos) ≡ false
      → (r : Written × Pipe × List ℕ) → Ended (put b p) (written + 1) bs r
      → Ended p written (b ∷ bs) r
  unfolding put
  Ended-cons written b bs p v free r d =
      let one : room p ≡ suc (room (put b p)) = omega (arith, room-put p v free b) in
      record {
        outcome = rw one (ground (arith, d.outcome));
        holds = rw one (
            d.holds
            ∙ rw (contents-put p v free b)
                (append_assoc (contents p) (b ∷ []) (take (room (put b p)) bs)));
        woken = rw one (ground (arith, d.woken));
        valid = d.valid;
        unflushed = d.unflushed;
      }

  write_loop-put :
      (written b : ℕ) (bs : List ℕ) (p : Pipe)
      → ((p.write_pos + 1) % pipe_size == p.read_pos) ≡ false
      → write_loop pid written (b ∷ bs) p ≡ write_loop pid (written + 1) bs (put b p)
  unfolding write_loop
  write_loop-put written b bs p free = rw free

  write_loop-Ended :
      (written : ℕ) (bytes : List ℕ) (p : Pipe)
      → IsValid p
      → Ended p written bytes (write_loop pid written bytes p)
  write_loop-Ended written [] p v = Ended-nil written p v
  write_loop-Ended written (b ∷ bs) p v =
      elim (Bool-cases ((p.write_pos + 1) % pipe_size == p.read_pos)) [
        | inl full ↦ Ended-full written b bs p v full
        | inr free ↦ rw (write_loop-put written b bs p free) (
            Ended-cons written b bs p v free (write_loop pid (written + 1) bs (put b p))
              (write_loop-Ended (written + 1) bs (put b p) (put-IsValid p v free b)))
      ]

  -- `pipe_write` into a valid pipe puts as many of its bytes behind the others, in order, as there is
  -- room for. If those are all, it returns their number and wakes every process that sleeps on the
  -- pipe; otherwise it returns early if the pipe was flushed, and sleeps with the rest if it was not.
  pub write_lem :
      (bytes : List ℕ) (p : Pipe)
      → IsValid p
      → (r : Written × Pipe × List ℕ) × (write pid (some p) (some bytes) ≡ (r.0, some r.1, r.2))
        × Ended p 0 bytes r
  unfolding write
  write_lem bytes p v = (write_loop pid 0 bytes p, refl, write_loop-Ended 0 bytes p v)
