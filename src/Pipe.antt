-- ===== src/Pipe.antt =====
-- Pipes, `basekernel/kernel/pipe.c`: a page used as a ring of bytes, with processes that sleep until
-- there is room or data.
pub mod Write
pub mod Read
pub mod Nonblocking
mod Tests
use stage_os.Base.{
  ℕ, zero, suc, ◌+◌, ◌-◌, ◌%◌, Bool, true, false, Option, none, some, List, [], ◌∷◌, ◌++◌, ◌==◌,
  if◌then◌else◌, get_or, set, replicate,
}

-- `PIPE_SIZE`
abbrev pub pipe_size : ℕ
pipe_size = 4096

-- `struct pipe`; the page by its bytes, the sleeping processes by their pids
pub record Pipe : Type 0 where
  pub buffer : List ℕ
  pub read_pos : ℕ
  pub write_pos : ℕ
  pub flushed : Bool
  pub refcount : ℕ
  pub queue : List ℕ

-- `pipe_create`, once memory is found: `page_alloc(1)` gives a page of zeros.
pub create : Pipe
create = record {
  buffer = replicate pipe_size 0;
  read_pos = 0;
  write_pos = 0;
  flushed = false;
  refcount = 1;
  queue = [];
}

-- `pipe_addref`
pub addref : Pipe → Pipe
addref p = record p { refcount = p.refcount + 1 }

-- `pipe_flush`
pub flush : Option Pipe → Option Pipe
flush none = none
flush (some p) = some (record p { flushed = true })

-- `pipe_delete` of a pipe with a reference: `none` when its memory is given back.
pub delete : Pipe → Option Pipe
delete p = if p.refcount - 1 == 0 then none else some (record p { refcount = p.refcount - 1 })

-- `p->buffer[p->write_pos] = b; p->write_pos = (p->write_pos + 1) % PIPE_SIZE;`
pub put : ℕ → Pipe → Pipe
put b p = record p {
  buffer = set p.buffer p.write_pos b;
  write_pos = (p.write_pos + 1) % pipe_size;
}

-- `p->buffer[p->read_pos]`, and `p->read_pos = (p->read_pos + 1) % PIPE_SIZE;`
pub front : Pipe → ℕ
front p = get_or p.buffer p.read_pos 0

pub advance : Pipe → Pipe
advance p = record p { read_pos = (p.read_pos + 1) % pipe_size }

-- How a write ends: it fails with -1, it returns a count, or the process sleeps on the pipe with
-- `count` bytes written and `rest` to write, and goes on from there when it is woken.
pub data Written : Type 0 where
  fails : Written
  returns : ℕ → Written
  sleeps : (count : ℕ) (rest : List ℕ) → Written

-- `process_wakeup_all(&p->queue)`, then `p->flushed = 0`: the state and the woken processes.
pub finish : Pipe → Pipe × List ℕ
finish p = (record p { queue = []; flushed = false }, p.queue)

-- The blocking loop of `pipe_write_internal` in process `pid`, with `written` bytes written. The
-- last part is the processes that are woken.
pub write_loop : (pid written : ℕ) → List ℕ → Pipe → Written × Pipe × List ℕ
unfolding put finish
write_loop pid written [] p = let (p', woken) = finish p in (returns written, p', woken)
write_loop pid written (b ∷ bs) p =
    let rest = write_loop pid (written + 1) bs (put b p) in
    if (p.write_pos + 1) % pipe_size == p.read_pos
    then (if p.flushed
        then (returns written, record p { flushed = false }, [])
        else (sleeps written (b ∷ bs), record p { queue = p.queue ++ (pid ∷ []) }, []))
    else rest

-- `pipe_write`; the bytes are the first `size` of the caller's buffer.
pub write : (pid : ℕ) → Option Pipe → Option (List ℕ) → Written × Option Pipe × List ℕ
unfolding write_loop
write pid (some p) (some bytes) =
    let (o, p', woken) = write_loop pid 0 bytes p in (o, some p', woken)
write pid none bytes = (fails, none, [])
write pid (some p) none = (fails, some p, [])

-- `p->write_pos != (p->read_pos - 1) % PIPE_SIZE` as C computes it on `int`: the right side is -1
-- at `read_pos` 0, and differs from every position.
pub has_room : Pipe → Bool
has_room p = if p.read_pos == 0 then true else if p.write_pos == p.read_pos - 1 then false else true

-- The other loop of `pipe_write_internal`.
pub write_nonblock_loop : ℕ → List ℕ → Pipe → ℕ × Pipe
unfolding has_room put
write_nonblock_loop written [] p = (written, record p { flushed = false })
write_nonblock_loop written (b ∷ bs) p =
    let rest = write_nonblock_loop (written + 1) bs (put b p) in
    if has_room p then rest else (written, record p { flushed = false })

-- `pipe_write_nonblock`
pub write_nonblock : Option Pipe → Option (List ℕ) → Written × Option Pipe
unfolding write_nonblock_loop
write_nonblock (some p) (some bytes) =
    let (n, p') = write_nonblock_loop 0 bytes p in (returns n, some p')
write_nonblock none bytes = (fails, none)
write_nonblock (some p) none = (fails, some p)

-- How a read ends: it fails, it returns the bytes, or the process sleeps with the bytes `got` and
-- `left` to read.
pub data Got : Type 0 where
  fails : Got
  returns : List ℕ → Got
  sleeps : (got : List ℕ) (left : ℕ) → Got

-- The blocking loop of `pipe_read_internal`, for `left` more bytes behind the bytes `got`.
pub read_loop : (pid : ℕ) (got : List ℕ) (left : ℕ) → Pipe → Got × Pipe × List ℕ
unfolding front advance finish
read_loop pid got zero p = let (p', woken) = finish p in (Got.returns got, p', woken)
read_loop pid got (suc left) p =
    let rest = read_loop pid (got ++ (front p ∷ [])) left (advance p) in
    if p.write_pos == p.read_pos
    then (if p.flushed
        then (Got.returns got, record p { flushed = false }, [])
        else (Got.sleeps got (suc left), record p { queue = p.queue ++ (pid ∷ []) }, []))
    else rest

-- `pipe_read`; the flag tells whether the caller's buffer is there.
pub read : (pid : ℕ) → Option Pipe → (buffer : Bool) → (size : ℕ) → Got × Option Pipe × List ℕ
unfolding read_loop
read pid (some p) true size = let (o, p', woken) = read_loop pid [] size p in (o, some p', woken)
read pid none buffer size = (Got.fails, none, [])
read pid (some p) false size = (Got.fails, some p, [])

-- The other loop of `pipe_read_internal`.
pub read_nonblock_loop : List ℕ → ℕ → Pipe → List ℕ × Pipe
unfolding front advance
read_nonblock_loop got zero p = (got, record p { flushed = false })
read_nonblock_loop got (suc left) p =
    let rest = read_nonblock_loop (got ++ (front p ∷ [])) left (advance p) in
    if p.read_pos == p.write_pos then (got, record p { flushed = false }) else rest

-- `pipe_read_nonblock`
pub read_nonblock : Option Pipe → (buffer : Bool) → (size : ℕ) → Got × Option Pipe
unfolding read_nonblock_loop
read_nonblock (some p) true size =
    let (got, p') = read_nonblock_loop [] size p in (Got.returns got, some p')
read_nonblock none buffer size = (Got.fails, none)
read_nonblock (some p) false size = (Got.fails, some p)
