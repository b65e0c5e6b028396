-- ===== src/Console.antt =====
-- The cursor of `basekernel/kernel/console.c`. A console has a graphics context, of which its width and
-- its height in pixels are parameters; what is drawn is a list of characters with their places, which
-- stand for places of 8 by 8 pixels. Positions are of type `int`, and the cursor may leave the screen.
pub mod Cursor
pub mod Draw
mod Tests
use stage_os.Base.{
  ℕ, zero, suc, ◌+◌, ◌-◌, ◌*◌, ◌/◌, ◌%◌, Bool, true, false, List, [], ◌∷◌, ◌++◌, ◌==◌, ltb, leb,
  if◌then◌else◌,
}

-- `negsuc n` is -(n + 1).
pub data ℤ : Type 0 where
  pos : ℕ → ℤ
  negsuc : ℕ → ℤ

abbrev pub pred : ℤ → ℤ
pred (pos zero) = negsuc 0
pred (pos (suc n)) = pos n
pred (negsuc n) = negsuc (suc n)

abbrev pub succ : ℤ → ℤ
succ (pos n) = pos (suc n)
succ (negsuc zero) = pos 0
succ (negsuc (suc n)) = negsuc n

-- The tests against 0 and against a size
abbrev pub is_negative : ℤ → Bool
is_negative (pos n) = false
is_negative (negsuc n) = true

abbrev pub reaches : ℕ → ℤ → Bool
reaches size (pos n) = leb size n
reaches size (negsuc n) = false

-- `struct console`
pub record Console : Type 0 where
  pub xpos : ℤ
  pub ypos : ℤ
  pub xsize : ℕ
  pub ysize : ℕ
  pub onoff : Bool

-- What is drawn: a character at a column and a row, or the whole window cleared
pub data Drawing : Type 0 where
  char : ℤ → ℤ → ℕ → Drawing
  clear : Drawing

module _ (width height : ℕ) where
  -- `console_reset`
  unfoldable pub console_reset : Console → Console × List Drawing
  console_reset d = (
    record { xpos = pos 0; ypos = pos 0; xsize = width / 8; ysize = height / 8; onoff = false },
    clear ∷ [],
  )

  -- `console_heartbeat`
  unfoldable pub console_heartbeat : Console → Console × List Drawing
  console_heartbeat d = (
    record d { onoff = if d.onoff then false else true },
    char d.xpos d.ypos (if d.onoff then b' ' else b'_') ∷ [],
  )

  -- The screen from its first place on
  abbrev pub home : Console → Console
  home d = record d { xpos = pos 0; ypos = pos 0; xsize = width / 8; ysize = height / 8 }

  -- The `switch` of `console_write` on a character
  unfoldable pub put : ℕ → Console → Console × List Drawing
  put c d =
      if c == 13
      then (record d { xpos = pos 0; ypos = succ d.ypos }, [])
      else if c == 10
      then (record d { xpos = pos 0; ypos = succ d.ypos }, [])
      else if c == 12
      then (home d, clear ∷ [])
      else if c == 8
      then (record d { xpos = pred d.xpos }, [])
      else (record d { xpos = succ d.xpos }, char d.xpos d.ypos c ∷ [])

  -- The three tests behind it
  unfoldable pub wrap_left : Console → Console
  wrap_left d =
      if is_negative d.xpos then record d { xpos = pred (pos d.xsize); ypos = pred d.ypos } else d

  unfoldable pub wrap_right : Console → Console
  wrap_right d = if reaches d.xsize d.xpos then record d { xpos = pos 0; ypos = succ d.ypos } else d

  unfoldable pub wrap_down : Console → Console × List Drawing
  wrap_down d = if reaches d.ysize d.ypos then (home d, clear ∷ []) else (d, [])

  -- One round of the loop
  unfoldable pub write_char : ℕ → Console → Console × List Drawing
  write_char c d =
      let (d1, drawn) = put c d in
      let (d2, cleared) = wrap_down (wrap_right (wrap_left d1)) in (d2, drawn ++ cleared)

  -- The loop
  unfoldable pub write_chars : List ℕ → Console → Console × List Drawing
  write_chars [] d = (d, [])
  write_chars (c ∷ s) d =
      let r = write_char c d in let rest = write_chars s r.0 in (rest.0, r.1 ++ rest.1)

  -- `console_write`
  unfoldable pub console_write : List ℕ → Console → Console × List Drawing
  console_write s d =
      let r = write_chars s d in
      (r.0, char d.xpos d.ypos b' ' ∷ (r.1 ++ char r.0.xpos r.0.ypos b'_' ∷ []))
