-- ===== src/Console/Draw.antt =====
-- What `basekernel/kernel/console.c` draws, as calls of `basekernel/kernel/graphics.c`.
use stage_os.Base.{ℕ, ◌+◌, ◌-◌, ◌*◌, ◌/◌, ◌%◌, ◌^◌, ◌≡◌, ◌∙◌, refl, ap, subst, List, [], ◌∷◌, arith}
use stage_os.Console.{ℤ, pos, negsuc, Console, Drawing, console_write}
use stage_os.Console.Cursor.{Within, OnScreen, Inside, NoBackspace, console_write-OnScreen}
use stage_os.Graphics
use stage_os.Graphics.{
  Color, Bitmap, Graphics, set_fgcolor, set_bgcolor, draw_char, draw_bitmap, rect_internal,
}
use stage_os.Graphics.Places.{Fits}
use stage_os.Graphics.Rect.{rect_internal_keeps, rect_internal-Agree}
use stage_os.Graphics.Agree.{Agree, Agree-refl, Agree-trans}
use stage_os.Graphics.Chars.{draw_char-Agree}

-- `8 * x` as a pattern of 32 bits
abbrev pub pixels : ℤ → ℕ
pixels (pos n) = n * 8 % 2 ^ 32
pixels (negsuc n) = (2 ^ 32 - (n + 1) * 8 % 2 ^ 32) % 2 ^ 32

-- The colours of console.c
abbrev pub white : Color
white = record { r = 255; g = 255; b = 255; a = 0 }

abbrev pub black : Color
black = record { r = 0; g = 0; b = 0; a = 0 }

-- The calls that a drawing stands for
unfoldable pub draw : (font : ℕ → ℕ) → Graphics → Drawing → Graphics
draw font g (Drawing.char x y c) = draw_char font g (pixels x) (pixels y) c
draw font g Drawing.clear =
    let painted = set_bgcolor (set_fgcolor g white) black in
    Graphics.clear painted 0 0 g.clip.w g.clip.h

unfoldable pub draw_all : (font : ℕ → ℕ) → Graphics → List Drawing → Graphics
unfolding draw
draw_all font g [] = g
draw_all font g (d ∷ l) = draw_all font (draw font g d) l

-- A drawing keeps the clip, and changes only what lies in it.
record Kept (g g' : Graphics) : Type 0 where
  clip : g'.clip ≡ g.clip
  bitmap : Agree g.clip.x (g.clip.x + g.clip.w) g.clip.y (g.clip.y + g.clip.h) g.bitmap g'.bitmap

Kept-Fits : (g g' : Graphics) → Kept g g' → Fits g → Fits g'
Kept-Fits g g' kept fits = record {
  columns = rw (kept.clip, kept.bitmap.width) fits.columns;
  rows = rw (kept.clip, kept.bitmap.height) fits.rows;
  numbered = rw (kept.bitmap.width, kept.bitmap.height) fits.numbered;
  wide = rw kept.bitmap.width fits.wide;
  high = rw kept.bitmap.height fits.high;
}

Kept-trans : (a b c : Graphics) → Kept a b → Kept b c → Kept a c
Kept-trans a b c p q = record {
  clip = q.clip ∙ p.clip;
  bitmap = Agree-trans _ _ _ _ a.bitmap b.bitmap c.bitmap p.bitmap (
      subst (λ (k : Graphics.Clip). Agree k.x (k.x + k.w) k.y (k.y + k.h) b.bitmap c.bitmap) p.clip
        q.bitmap);
}

draw_char-clip : (font : ℕ → ℕ) (g : Graphics) (x y c : ℕ) → (draw_char font g x y c).clip ≡ g.clip
unfolding draw_char draw_bitmap
draw_char-clip font g x y c = refl

draw_char-Kept :
    (font : ℕ → ℕ) (g : Graphics) (x y : ℤ) (c : ℕ)
    → Fits g
    → Within (g.clip.w / 8) x
    → Within (g.clip.h / 8) y
    → Kept g (draw_char font g (pixels x) (pixels y) c)
draw_char-Kept font g (pos x) (pos y) c fits xlt ylt = record {
  clip = draw_char-clip font g (x * 8 % 2 ^ 32) (y * 8 % 2 ^ 32) c;
  bitmap =
      draw_char-Agree font g (x * 8 % 2 ^ 32) (y * 8 % 2 ^ 32) c fits (omega arith) (omega arith);
}
draw_char-Kept font g (negsuc x) y c fits xlt ylt = absurd xlt
draw_char-Kept font g (pos x) (negsuc y) c fits xlt ylt = absurd ylt

clear-Kept : (font : ℕ → ℕ) (g : Graphics) → Fits g → Kept g (draw font g Drawing.clear)
unfolding draw Graphics.clear
clear-Kept font g fits =
    let painted : Graphics = set_bgcolor (set_fgcolor g white) black in
    let same : Fits painted = record {
      columns = fits.columns;
      rows = fits.rows;
      numbered = fits.numbered;
      wide = fits.wide;
      high = fits.high;
    } in
    record {
      clip = (rect_internal_keeps painted 0 0 g.clip.w g.clip.h black).0;
      bitmap =
          rect_internal-Agree painted 0 0 g.clip.w g.clip.h black same (omega arith) (omega arith)
            (omega (arith, fits.columns, fits.wide)) (omega (arith, fits.rows, fits.high));
    }

draw_all-Kept :
    (font : ℕ → ℕ) (g : Graphics) (w h : ℕ) (l : List Drawing)
    → g.clip.w ≡ w
    → g.clip.h ≡ h
    → Fits g
    → Inside w h l
    → Kept g (draw_all font g l)
unfolding draw_all
draw_all-Kept font g w h [] we he fits inside = record {
  clip = refl;
  bitmap = Agree-refl _ _ _ _ g.bitmap;
}
draw_all-Kept font g w h (Drawing.char x y c ∷ l) we he fits inside =
    let one = draw_char-Kept font g x y c fits (rw we inside.0) (rw he inside.1) in
    let g' : Graphics = draw_char font g (pixels x) (pixels y) c in
    Kept-trans g g' _ one (
      draw_all-Kept font g' w h l (ap (λ (k : Graphics.Clip). k.w) one.clip ∙ we)
        (ap (λ (k : Graphics.Clip). k.h) one.clip ∙ he) (Kept-Fits g g' one fits) inside.2)
draw_all-Kept font g w h (Drawing.clear ∷ l) we he fits inside =
    let one = clear-Kept font g fits in
    let g' : Graphics = draw font g Drawing.clear in
    Kept-trans g g' _ one (
      draw_all-Kept font g' w h l (ap (λ (k : Graphics.Clip). k.w) one.clip ∙ we)
        (ap (λ (k : Graphics.Clip). k.h) one.clip ∙ he) (Kept-Fits g g' one fits) inside)

-- What `console_write` of characters without a backspace draws changes only pixels in the clip of the
-- window, where the clip lies in the bitmap and the cursor is on the screen.
pub console_write-Agree :
    (font : ℕ → ℕ) (g : Graphics) (s : List ℕ) (d : Console)
    → Fits g
    → NoBackspace s
    → OnScreen g.clip.w g.clip.h d
    → Agree g.clip.x
        (g.clip.x + g.clip.w)
        g.clip.y
        (g.clip.y + g.clip.h)
        g.bitmap
        (draw_all font g (console_write g.clip.w g.clip.h s d).1).bitmap
console_write-Agree font g s d fits plain on =
    let written = console_write-OnScreen g.clip.w g.clip.h s d plain on in
    let kept = draw_all-Kept font g g.clip.w g.clip.h _ refl refl fits written.1 in kept.bitmap
