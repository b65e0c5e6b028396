-- ===== src/Graphics/Commands.antt =====
-- The interpreter of drawing commands, `graphics_write` of `basekernel/kernel/graphics.c`.
use stage_os.Base.{ℕ, zero, suc, ◌+◌, ◌-◌, ◌*◌, ◌%◌, ◌^◌, Option, none, some, ◌==◌, if◌then◌else◌}
use stage_os.Graphics.{
  Color, Graphics, is_negative, rounds, rect, clear, set_fgcolor, set_bgcolor, draw_char,
}
use stage_os.Graphics.Line.{line}

-- `graphics_command_t`
abbrev pub fgcolor_command : ℕ
fgcolor_command = 1

abbrev pub bgcolor_command : ℕ
bgcolor_command = 2

abbrev pub line_command : ℕ
line_command = 3

abbrev pub rect_command : ℕ
rect_command = 4

abbrev pub clear_command : ℕ
clear_command = 5

abbrev pub text_command : ℕ
text_command = 6

-- The result of `graphics_write`
pub data Status : Type 0 where
  ok invalid_request : Status

-- The colour that a command names, as bytes
abbrev pub color_at : (ℕ → ℕ) → ℕ → Color
color_at cmd at = record {
  r = cmd (at + 1) % 256;
  g = cmd (at + 2) % 256;
  b = cmd (at + 3) % 256;
  a = 0;
}

-- The loop of a text command: `n` characters from number `i` on
unfoldable pub text : (font cmd : ℕ → ℕ) → Graphics → (at n i : ℕ) → Graphics
text font cmd g at zero i = g
text font cmd g at (suc n) i =
    text font cmd
      (draw_char font g ((cmd (at + 1) + i * 8) % 2 ^ 32) (cmd (at + 2)) (cmd (at + 4 + i) % 256))
      at n (i + 1)

-- What one command does, and the words that it takes; `none` is no command.
unfoldable pub command : (font cmd : ℕ → ℕ) → Graphics → ℕ → Option (Graphics × ℕ)
unfolding rect clear line text
command font cmd g at =
    if cmd at == fgcolor_command
    then some (set_fgcolor g (color_at cmd at), 4)
    else if cmd at == bgcolor_command
    then some (set_bgcolor g (color_at cmd at), 4)
    else if cmd at == rect_command
    then some (rect g (cmd (at + 1)) (cmd (at + 2)) (cmd (at + 3)) (cmd (at + 4)), 5)
    else if cmd at == clear_command
    then some (clear g (cmd (at + 1)) (cmd (at + 2)) (cmd (at + 3)) (cmd (at + 4)), 5)
    else if cmd at == line_command
    then some (line g (cmd (at + 1)) (cmd (at + 2)) (cmd (at + 3)) (cmd (at + 4)), 5)
    else if cmd at == text_command
    then some (text font cmd g at (rounds (cmd (at + 3))) 0, (4 + cmd (at + 3)) % 2 ^ 32)
    else none

-- The loop of `graphics_write` on fuel, from word `at` on with `length` words left; `none` means that
-- the fuel ran out.
unfoldable pub write :
    (font cmd : ℕ → ℕ) → (fuel : ℕ) → Graphics → (at length : ℕ) → Option (Status × Graphics)
write font cmd zero g at n = none
write font cmd (suc fuel) g at n = elim (command font cmd g at) [
  | none ↦
      if n == 0
      then some (ok, g)
      else if is_negative n
      then some (ok, g)
      else some (invalid_request, g)
  | some r ↦
      let rest = write font cmd fuel r.0 ((at + r.1) % 2 ^ 32) ((n + 2 ^ 32 - r.1) % 2 ^ 32) in
      if n == 0 then some (ok, g) else if is_negative n then some (ok, g) else rest
]
