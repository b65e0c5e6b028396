-- ===== src/Console/Tests.antt =====
-- Runs of `basekernel/kernel/console.c` on a window of 32 by 16 pixels, and the theorems there.
use stage_os.Base.{◌≡◌, refl, false, [], ◌∷◌, arith}
use stage_os.Console.{
  pos, negsuc, Console, char, console_reset, console_heartbeat, put, wrap_left, wrap_right,
  wrap_down, write_char, write_chars, console_write,
}
use stage_os.Console.Cursor.{OnScreen}
use stage_os.Console.Draw.{white, black, draw_all, console_write-Agree}
use stage_os.Graphics.{Graphics}
use stage_os.Graphics.Places.{Fits}
use stage_os.Graphics.Agree.{Agree}

abbrev start : Console
start = record { xpos = pos 0; ypos = pos 0; xsize = 4; ysize = 2; onoff = false }

-- The last place of the screen wraps to the first, and the screen is cleared.
wraps : (write_chars 32 16 (b'a' ∷ 10 ∷ b'b' ∷ b'c' ∷ b'd' ∷ b'e' ∷ []) start).0 ≡ start
unfolding write_chars write_char put wrap_left wrap_right wrap_down
wraps = refl

beats : (console_heartbeat 32 16 (console_reset 32 16 start).0).1 ≡ char (pos 0) (pos 0) b'_' ∷ []
unfolding console_heartbeat console_reset
beats = refl

-- After the backspace the next character is drawn above the screen.
draws_above : (write_chars 32 16 (8 ∷ b'a' ∷ []) start).1 ≡ char (pos 3) (negsuc 0) b'a' ∷ []
unfolding write_chars write_char put wrap_left wrap_right wrap_down
draws_above = refl

start-OnScreen : OnScreen 32 16 start
start-OnScreen = record { columns = refl; rows = refl; column = omega arith; row = omega arith }

-- A window of 32 by 16 pixels in a bitmap of 64 by 32
abbrev window : Graphics
window = record {
  bitmap = record { width = 64; height = 32; pixel = λ i. record { blue = 0; green = 0; red = 0 } };
  fgcolor = white;
  bgcolor = black;
  clip = record { x = 8; y = 4; w = 32; h = 16 };
}

window-Fits : Fits window
window-Fits = record {
  columns = omega arith;
  rows = omega arith;
  numbered = omega arith;
  wide = omega arith;
  high = omega arith;
}

console_write-Agree_example :
    Agree 8 40 4 20 window.bitmap
      (draw_all (λ i. 255) window (console_write 32 16 (b'a' ∷ 10 ∷ []) start).1).bitmap
console_write-Agree_example =
    console_write-Agree (λ i. 255) window (b'a' ∷ 10 ∷ []) start window-Fits
      (omega arith, (omega arith, tt)) start-OnScreen
