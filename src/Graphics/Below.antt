-- ===== src/Graphics/Below.antt =====
-- `graphics_line` of `basekernel/kernel/graphics.c` from the row below the clip.
use stage_os.Base.{
  ℕ, zero, suc, ◌+◌, ◌-◌, ◌*◌, ◌/◌, ◌%◌, ◌^◌, ◌≤◌, ◌<◌, ◌≡◌, ◌∙◌, refl, ap, sym, true, false, ◌==◌,
  ◌||◌, ltb, leb, arith, ==-refl, ge→ltb,
}
use stage_os.Graphics.{Color, Bitmap, Graphics, is_negative, plot_pixel, plotted}
use stage_os.Graphics.Line.{right, up, negated, slanted, line_q3, line_by_slope, line_right, line}
use stage_os.Graphics.Places.{Fits, mul_le}
use stage_os.Graphics.Strokes.{slanted-Agree, RightUp, RightUp-Room}
use stage_os.Graphics.Lines.{slope_budget}

-- A pixel that is plotted
plot_pixel_at :
    (b : Bitmap) (x y : ℕ) (c : Color)
    → b.width * y + x < 2 ^ 32
    → (plot_pixel b x y c).pixel (b.width * y + x) ≡ plotted c (b.pixel (b.width * y + x))
unfolding plot_pixel
plot_pixel_at b x y c small =
    let here : (b.width * y + x) % 2 ^ 32 ≡ b.width * y + x = omega arith in
    rw (here, ==-refl (b.width * y + x)) refl

plot_pixel-width : (b : Bitmap) (x y : ℕ) (c : Color) → (plot_pixel b x y c).width ≡ b.width
unfolding plot_pixel
plot_pixel-width b x y c = refl

flat_slope : (h w : ℕ) → h < w → 256 * h / w < 256
flat_slope h w lt = let whole : 256 * h / w * w ≤ 256 * h = grind arith in grind arith

-- The first pixel of a flat line to the right and upwards stays as it was plotted.
line_q3-first :
    (g : Graphics) (x y w h : ℕ)
    → h < w
    → x + w < g.bitmap.width
    → h ≤ y
    → g.bitmap.width * (y + 1) ≤ 2 ^ 32
    → y < 2 ^ 32
    → (line_q3 g x y w h).pixel (g.bitmap.width * y + x)
      ≡ plotted g.fgcolor (g.bitmap.pixel (g.bitmap.width * y + x))
unfolding line_q3 slanted
line_q3-first g x y zero h flat inside hle small ys = absurd (omega arith)
line_q3-first g x y (suc zero) h flat inside hle small ys =
    plot_pixel_at g.bitmap x y g.fgcolor (grind arith)
line_q3-first g x y (suc (suc n)) h flat inside hle small ys =
    let slope : ℕ = 256 * h / suc (suc n) in
    let short : ltb 256 (0 + slope) ≡ false =
      ge→ltb 256 (0 + slope) (omega (arith, flat_slope h (suc (suc n)) flat)) in
    let rounds : suc (suc n) - 1 ≡ suc n = omega arith in
    let budget : 0 + suc n * slope ≤ 256 * h =
      rw rounds at (slope_budget h (suc (suc n)) (omega arith)) in
    let total : suc n * slope ≡ slope + n * slope = grind arith in
    let first : Bitmap = plot_pixel g.bitmap x y g.fgcolor in
    let wide : first.width ≡ g.bitmap.width = plot_pixel-width g.bitmap x y g.fgcolor in
    let others : Bitmap = slanted right up g.fgcolor slope first (x + 1, y) (0 + slope) n in
    let rest =
      slanted-Agree (x + 1) g.bitmap.width (y - h) (y + 1) right up
        (RightUp (x + 1) g.bitmap.width (y - h) (y + 1)) g.fgcolor slope
        (RightUp-Room (x + 1) g.bitmap.width (y - h) (y + 1)) first (x + 1, y) (0 + slope) n h
        (omega arith) (rw wide small) (omega arith) (omega arith) in
    rw (rounds, short, slanted)
      (ap (λ k. others.pixel (k * y + x)) (sym wide)
        ∙ rest.pixel x y (omega arith) (ground arith)
        ∙ ap (λ k. first.pixel (k * y + x)) wide
        ∙ plot_pixel_at g.bitmap x y g.fgcolor (grind arith))

-- A flat line that goes up from the row below the clip begins outside of the clip: it plots the pixel
-- below the last row of the clip in its first column.
pub line_below_clip :
    (g : Graphics) (x w k : ℕ)
    → Fits g
    → 0 < k
    → k < w
    → k ≤ g.clip.h
    → x + w < g.clip.w
    → (line g x g.clip.h w (2 ^ 32 - k)).bitmap.pixel
        (g.bitmap.width * (g.clip.h + g.clip.y) + (x + g.clip.x))
      ≡ plotted g.fgcolor (g.bitmap.pixel (g.bitmap.width * (g.clip.h + g.clip.y) + (x + g.clip.x)))
unfolding line line_right line_by_slope
line_below_clip g x w k fits pos flat high inside =
    let ws : g.clip.w < 2 ^ 31 = omega (arith, fits.columns, fits.wide) in
    let hs : g.clip.h < 2 ^ 31 = omega (arith, fits.rows, fits.high) in
    let forward : is_negative w ≡ false = ground arith in
    let start : (is_negative x || is_negative g.clip.h || ltb g.clip.w x || ltb g.clip.h g.clip.h)
        ≡ false =
      ground arith in
    let up_to : (g.clip.h + (2 ^ 32 - k)) % 2 ^ 32 ≡ g.clip.h - k = omega arith in
    let ends : (leb g.clip.w ((x + w) % 2 ^ 32)
          || leb g.clip.h (g.clip.h - k)
          || is_negative (g.clip.h - k))
        ≡ false =
      ground arith in
    let height : ((2 ^ 32 - k) == 0) ≡ false = ground arith in
    let sign : is_negative (2 ^ 32 - k) ≡ true = ground arith in
    let size : negated (2 ^ 32 - k) ≡ k = omega arith in
    let some_width : (w == 0) ≡ false = ground arith in
    let shallow : ltb k w ≡ true = ground arith in
    rw (forward, start, up_to, ends, height, sign, size, some_width, shallow)
      (line_q3-first g (x + g.clip.x) (g.clip.h + g.clip.y) w k flat (omega (arith, fits.columns))
        (omega arith)
        (omega (
          arith,
          fits.numbered,
          mul_le g.bitmap.width (g.clip.h + g.clip.y + 1) (g.bitmap.height + 1)
              (omega (arith, fits.rows)),
        ))
        (omega (arith, fits.rows, fits.high)))
