-- ===== src/Pipe/Read.antt =====
-- The blocking read of `basekernel/kernel/pipe.c` against the bytes that the pipe holds, and a write
-- followed by a read.
use stage_os.Base.{
  ℕ, zero, suc, ◌-◌, ◌≤◌, ◌<◌, ◌≡◌, ◌≢◌, ◌∙◌, refl, ap, sym, inl, inr, Bool, true, false, some,
  List, [], ◌∷◌, ◌++◌, arith, ◌==◌, if◌then◌else◌, length, take, drop, take_all, append-nil,
  append_assoc, Bool-cases, ==_iff, leb,
}
use stage_os.Ring.{span, next, mod-next, span-next_from, span_self, window}
use stage_os.Pipe.{
  Pipe, pipe_size, front, advance, Written, write, Got, returns, sleeps, read_loop, read,
}
use stage_os.Pipe.Write.{IsValid, contents, room, room_empty, write_lem}

module _ (p : Pipe) (v : IsValid p) where
  pub contents_empty : (p.write_pos == p.read_pos) ≡ true → contents p ≡ []
  unfolding window
  contents_empty e = rw ((==_iff p.write_pos p.read_pos).0 e, span_self pipe_size p.read_pos)

  module _ (more : (p.write_pos == p.read_pos) ≡ false) where
    -- The byte that is read is the first that the pipe holds.
    pub contents_cons : contents p ≡ front p ∷ contents (advance p)
    unfolding window front advance
    contents_cons =
        let ne : p.read_pos ≢ p.write_pos =
          λ h. cc ((==_iff p.write_pos p.read_pos).1 (sym h), more) in
        let one : span pipe_size p.read_pos p.write_pos
            ≡ suc (span pipe_size (next pipe_size p.read_pos) p.write_pos) =
          omega (arith, span-next_from pipe_size p.read_pos p.write_pos v.read_in v.write_in ne) in
        rw (mod-next pipe_size p.read_pos v.read_in, one)

    pub advance-IsValid : IsValid (advance p)
    unfolding advance
    advance-IsValid = record { cells = v.cells; read_in = omega arith; write_in = v.write_in }

-- How a blocking read ends that has `left` bytes to read behind the bytes `got`: it takes as many as
-- there are; if that is not enough, it returns early from a flushed pipe, and sleeps otherwise.
pub record Fetched (p : Pipe) (got : List ℕ) (left : ℕ) (r : Got × Pipe × List ℕ) : Type 0 where
  pub outcome : r.0 ≡ (
      if leb left (length (contents p))
      then returns (got ++ take left (contents p))
      else if p.flushed
      then returns (got ++ contents p)
      else sleeps (got ++ contents p) (left - length (contents p)))
  pub holds : contents r.1 ≡ drop left (contents p)
  pub woken : r.2 ≡ (if leb left (length (contents p)) then p.queue else [])
  pub valid : IsValid r.1
  pub unflushed : r.1.flushed ≡ false

module _ (pid : ℕ) where
  Fetched-zero : (got : List ℕ) (p : Pipe) → IsValid p → Fetched p got 0 (read_loop pid got zero p)
  unfolding read_loop
  Fetched-zero got p v = record {
    outcome = rw append-nil (ground arith);
    holds = refl;
    woken = ground arith;
    valid = record { cells = v.cells; read_in = v.read_in; write_in = v.write_in };
    unflushed = refl;
  }

  Fetched-empty :
      (got : List ℕ) (left : ℕ) (p : Pipe)
      → IsValid p
      → (p.write_pos == p.read_pos) ≡ true
      → Fetched p got (suc left) (read_loop pid got (suc left) p)
  unfolding read_loop
  Fetched-empty got left p v e = rw e (stopped (contents_empty p v e) p.flushed refl)
    where
      stopped :
          contents p ≡ []
          → (f : Bool) → p.flushed ≡ f
          → Fetched p got (suc left) (
              if f
              then (returns got, record p { flushed = false }, [])
              else (sleeps got (suc left), record p { queue = p.queue ++ (pid ∷ []) }, []))
      stopped z true h = record {
        outcome = rw (z, h, append-nil) (ground arith);
        holds = rw z;
        woken = rw z (ground arith);
        valid = record { cells = v.cells; read_in = v.read_in; write_in = v.write_in };
        unflushed = refl;
      }
      stopped z false h = record {
        outcome = rw (z, h, append-nil) (ground arith);
        holds = rw z;
        woken = rw z (ground arith);
        valid = record { cells = v.cells; read_in = v.read_in; write_in = v.write_in };
        unflushed = h;
      }

  Fetched-more :
      (got : List ℕ) (left : ℕ) (p : Pipe) (v : IsValid p)
      → (p.write_pos == p.read_pos) ≡ false
      → (r : Got × Pipe × List ℕ) → Fetched (advance p) (got ++ (front p ∷ [])) left r
      → Fetched p got (suc left) r
  unfolding advance
  Fetched-more got left p v more r d = record {
    outcome = rw (contents_cons p v more) (
        ground (
          arith,
          d.outcome,
          append_assoc got (front p ∷ []) (take left (contents (advance p))),
          append_assoc got (front p ∷ []) (contents (advance p)),
        ));
    holds = rw (contents_cons p v more) d.holds;
    woken = rw (contents_cons p v more) (ground (arith, d.woken));
    valid = d.valid;
    unflushed = d.unflushed;
  }

  read_loop-advance :
      (got : List ℕ) (left : ℕ) (p : Pipe)
      → (p.write_pos == p.read_pos) ≡ false
      → read_loop pid got (suc left) p ≡ read_loop pid (got ++ (front p ∷ [])) left (advance p)
  unfolding read_loop
  read_loop-advance got left p more = rw more

  read_loop-Fetched :
      (got : List ℕ) (left : ℕ) (p : Pipe)
      → IsValid p
      → Fetched p got left (read_loop pid got left p)
  read_loop-Fetched got zero p v = Fetched-zero got p v
  read_loop-Fetched got (suc left) p v = elim (Bool-cases (p.write_pos == p.read_pos)) [
    | inl empty ↦ Fetched-empty got left p v empty
    | inr more ↦ rw (read_loop-advance got left p more) (
        Fetched-more got left p v more (read_loop pid (got ++ (front p ∷ [])) left (advance p))
          (read_loop-Fetched (got ++ (front p ∷ [])) left (advance p) (advance-IsValid p v more)))
  ]

  -- `pipe_read` from a valid pipe takes the oldest bytes, in order, as many as are asked for and there.
  -- If those are enough, it returns them and wakes every process that sleeps on the pipe; otherwise it
  -- returns early if the pipe was flushed, and sleeps if it was not.
  pub read_lem :
      (size : ℕ) (p : Pipe)
      → IsValid p
      → (r : Got × Pipe × List ℕ) × (read pid (some p) true size ≡ (r.0, some r.1, r.2))
        × Fetched p [] size r
  unfolding read
  read_lem size p v = (read_loop pid [] size p, refl, read_loop-Fetched [] size p v)

-- What is written into an empty pipe is what is read from it: if the bytes fit, the write and then a
-- read of as many bytes return without sleeping, and the read gives the bytes in order.
pub read-write :
    (pid reader : ℕ) (bytes : List ℕ) (p : Pipe)
    → IsValid p
    → contents p ≡ []
    → length bytes < pipe_size
    → (p' p'' : Pipe) × (w w' : List ℕ) × (write pid (some p) (some bytes)
        ≡ (Written.returns (length bytes), some p', w))
      × (read reader (some p') true (length bytes) ≡ (returns bytes, some p'', w'))
read-write pid reader bytes p v e lt =
    let (a, wrote, end) = write_lem pid bytes p v in
    let (b, got, fin) = read_lem reader (length bytes) a.1 end.valid in
    let fits : length bytes ≤ room p = room_empty p e (length bytes) lt in
    let same : contents a.1 ≡ bytes = end.holds ∙ rw e (take_all (room p) bytes fits) in
    (
      a.1,
      b.1,
      a.2,
      b.2,
      wrote ∙ ap (λ o. (o, some a.1, a.2)) (end.outcome ∙ ground arith),
      got
          ∙ ap (λ o. (o, some b.1, b.2))
              (fin.outcome ∙ rw (same, take_all (length bytes) bytes (omega arith)) (ground arith)),
    )
