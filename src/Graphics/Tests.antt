-- ===== src/Graphics/Tests.antt =====
-- `basekernel/kernel/graphics.c` on a bitmap of 16 by 8 pixels, and the theorems there.
use stage_os.Base.{
  ◌%◌, [], ◌∷◌, get_or, ap, sym, ◌∙◌, ◌⊎◌, inl, inr, ℕ, ◌+◌, ◌-◌, ◌<◌, ◌*◌, ◌^◌, ◌≡◌, refl, none,
  some, if◌then◌else◌, ◌==◌, arith,
}
use stage_os.Graphics.{
  Color, Pixel, Graphics, plotted, plot_pixel, fill_row, fill_rows, rect, rect_internal, draw_row,
  draw_rows, draw_char,
}
use stage_os.Graphics.Line.{slanted, straight, line}
use stage_os.Graphics.Places.{Fits}
use stage_os.Graphics.Rect.{Filled, rect_internal-Filled, rect_left_of_window}
use stage_os.Graphics.Agree.{Agree}
use stage_os.Graphics.Lines.{line-Agree}
use stage_os.Graphics.Commands.{Status, write}
use stage_os.Graphics.Stream.{words, Begins, here, later, write_forever, write-returns}

abbrev red : Color
red = record { r = 255; g = 0; b = 0; a = 0 }

abbrev blank : Pixel
blank = record { blue = 0; green = 0; red = 0 }

abbrev red_pixel : Pixel
red_pixel = record { blue = 0; green = 0; red = 255 }

-- A window of 12 by 6 pixels inside of the bitmap
abbrev window : Graphics
window = record {
  bitmap = record { width = 16; height = 8; pixel = λ i. blank };
  fgcolor = red;
  bgcolor = record { r = 0; g = 0; b = 0; a = 0 };
  clip = record { x = 2; y = 1; w = 12; h = 6 };
}

window-Fits : Fits window
window-Fits = record {
  columns = omega arith;
  rows = omega arith;
  numbered = omega arith;
  wide = omega arith;
  high = omega arith;
}

-- The rectangle at (10, 4) is cut at the right edge of the clip.
rect_inside : (rect window 10 4 5 5).bitmap.pixel (16 * 5 + 13) ≡ red_pixel
unfolding rect fill_rows fill_row plot_pixel plotted
rect_inside = refl

rect_cut : (rect window 10 4 5 5).bitmap.pixel (16 * 5 + 14) ≡ blank
unfolding rect fill_rows fill_row plot_pixel plotted
rect_cut = refl

-- A line to the right and downwards
line_end : (line window 1 1 6 3).bitmap.pixel (16 * 4 + 8) ≡ red_pixel
unfolding line slanted straight plot_pixel plotted
line_end = refl

-- A character behind the right edge of the clip is drawn all the same.
char_outside : (draw_char (λ i. 255) window 13 0 65).bitmap.pixel (16 * 1 + 15) ≡ red_pixel
unfolding draw_char draw_rows draw_row plot_pixel plotted
char_outside = refl

rect_internal-Filled_example :
    Filled window red 12 14 5 7 (rect_internal window 10 4 5 5 red).bitmap
rect_internal-Filled_example =
    rect_internal-Filled window 10 4 5 5 red window-Fits (omega arith) (omega arith) (omega arith)
      (omega arith)

rect_left_of_window_example :
    Filled window red 2 14 5 6 (rect_internal window (2 ^ 32 - 10) 4 5 1 red).bitmap
rect_left_of_window_example =
    rect_left_of_window window (2 ^ 32 - 10) 4 5 1 red window-Fits (omega arith) (omega arith)
      (omega arith) (omega arith)

line-Agree_example : Agree 2 14 1 8 window.bitmap (line window 1 1 6 3).bitmap
line-Agree_example = line-Agree window 1 1 6 3 window-Fits (omega arith) (omega arith)

-- One text command of length -4
abbrev endless : ℕ → ℕ
endless i = if i == 0 then 6 else if i == 3 then 2 ^ 32 - 4 else 0

write_forever_example : write (λ i. 0) endless 1000 window 0 4 ≡ none
write_forever_example =
    write_forever (λ i. 0) endless 1000 window 0 4 refl refl (omega arith) (omega arith)
      (omega arith)

-- A line with the operands 6, 10, 5 and -3, and a text of one character
abbrev stream : ℕ → ℕ
stream i = get_or (3 ∷ 6 ∷ 10 ∷ 5 ∷ (2 ^ 32 - 3) ∷ 6 ∷ 1 ∷ 1 ∷ 1 ∷ 65 ∷ []) i 0

text-Begins : (at n i : ℕ) → Begins stream at n i → at ≡ 5 → n ≡ 5 → i ≡ 5
text-Begins at n i (here _ _ pos) e f = e
text-Begins at n i (later _ _ k _ w lt rest) e f =
    let five : some 5 ≡ some k = ap (words stream) (sym e) ∙ w in absurd (ground arith)

commands_begin : (at n i : ℕ) → Begins stream at n i → at ≡ 0 → n ≡ 10 → (i ≡ 0) ⊎ (i ≡ 5)
commands_begin at n i (here _ _ pos) e f = inl e
commands_begin at n i (later _ _ k _ w lt rest) e f =
    let five : some 5 ≡ some k = ap (words stream) (sym e) ∙ w in
    inr (text-Begins ((at + k) % 2 ^ 32) (n - k) i rest (ground arith) (ground arith))

no_long_text : (i : ℕ) → Begins stream 0 10 i → stream i ≡ 6 → stream (i + 3) < 2 ^ 31 - 4
no_long_text i b is_text = elim (commands_begin 0 10 i b refl refl) [
  | inl e ↦ rw e (omega arith)
  | inr e ↦ rw e (omega arith)
]

write-returns_example : (r : Status × Graphics) × (write (λ i. 0) stream 11 window 0 10 ≡ some r)
write-returns_example =
    write-returns (λ i. 0) stream 11 window 0 10 no_long_text (omega arith) (omega arith)
