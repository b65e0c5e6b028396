-- ===== src/Graphics/Chars.antt =====
-- `graphics_bitmap` and `graphics_char` of `basekernel/kernel/graphics.c`: where they draw.
use stage_os.Base.{
  ℕ, zero, suc, ◌+◌, ◌-◌, ◌*◌, ◌/◌, ◌%◌, ◌^◌, ◌≤◌, ◌<◌, ◌==◌, if◌then◌else◌, min, arith,
}
use stage_os.Graphics.{Color, Bitmap, Graphics, plot_pixel, draw_row, draw_rows, draw_char, rounds}
use stage_os.Graphics.Places.{Fits, mul_le}
use stage_os.Graphics.Agree.{Agree, Agree-refl, Agree-trans, plot_pixel-Agree}

module _ (x1 x2 y1 y2 : ℕ) (fg bg : Color) (bits : ℕ → ℕ) where
  draw_row-Agree :
      (m : Bitmap) (x y n at b : ℕ)
      → x1 ≤ x
      → x + n ≤ x2
      → x2 ≤ m.width
      → y1 ≤ y
      → y < y2
      → m.width * y2 ≤ 2 ^ 32
      → Agree x1 x2 y1 y2 m (draw_row fg bg bits m x y n at b).0
  unfolding draw_row
  draw_row-Agree m x y zero at b xle xlt fits yle ylt small = Agree-refl x1 x2 y1 y2 m
  draw_row-Agree m x y (suc n) at b xle xlt fits yle ylt small =
      let c : Color = (if bits at * 2 ^ b / 128 % 2 == 1 then fg else bg) in
      let one = plot_pixel-Agree x1 x2 y1 y2 m x y c xle (omega arith) fits yle ylt small in
      Agree-trans x1 x2 y1 y2 m (plot_pixel m x y c) _ one (
        draw_row-Agree (plot_pixel m x y c) (x + 1) y n _ _ (omega arith) (omega arith)
          (rw one.width fits) yle ylt (rw one.width small))

  draw_rows-Agree :
      (m : Bitmap) (x y w n at b : ℕ)
      → x1 ≤ x
      → x + w ≤ x2
      → x2 ≤ m.width
      → y1 ≤ y
      → y + n ≤ y2
      → m.width * y2 ≤ 2 ^ 32
      → Agree x1 x2 y1 y2 m (draw_rows fg bg bits m x y w n at b)
  unfolding draw_rows
  draw_rows-Agree m x y w zero at b xle xlt fits yle ylt small = Agree-refl x1 x2 y1 y2 m
  draw_rows-Agree m x y w (suc n) at b xle xlt fits yle ylt small =
      let r = draw_row fg bg bits m x y w at b in
      let one = draw_row-Agree m x y w at b xle xlt fits yle (omega arith) small in
      Agree-trans x1 x2 y1 y2 m r.0 _ one (
        draw_rows-Agree r.0 x (y + 1) w n r.1 r.2 xle xlt (rw one.width fits) (omega arith)
          (omega arith) (rw one.width small))

-- A character that begins in the clip, or on its edge, changes no pixel outside of the clip.
pub draw_char-Agree :
    (font : ℕ → ℕ) (g : Graphics) (x y c : ℕ)
    → Fits g
    → x ≤ g.clip.w
    → y ≤ g.clip.h
    → Agree g.clip.x
        (g.clip.x + g.clip.w)
        g.clip.y
        (g.clip.y + g.clip.h)
        g.bitmap
        (draw_char font g x y c).bitmap
unfolding draw_char
draw_char-Agree font g x y c fits xle yle =
    let wsmall : g.clip.w < 2 ^ 31 = omega (arith, fits.columns, fits.wide) in
    let hsmall : g.clip.h < 2 ^ 31 = omega (arith, fits.rows, fits.high) in
    let w : ℕ = min ((g.clip.w + 2 ^ 32 - x) % 2 ^ 32) 8 in
    let h : ℕ = min ((g.clip.h + 2 ^ 32 - y) % 2 ^ 32) 8 in
    let wr : rounds w ≤ g.clip.w - x = ground arith in
    let hr : rounds h ≤ g.clip.h - y = ground arith in
    draw_rows-Agree g.clip.x (g.clip.x + g.clip.w) g.clip.y (g.clip.y + g.clip.h) g.fgcolor
      g.bgcolor (λ i. font (c * 8 * 8 / 8 + i)) g.bitmap (x + g.clip.x) (y + g.clip.y) (rounds w)
      (rounds h) 0 0 (omega arith) (omega arith) fits.columns (omega arith) (omega arith)
      (omega (
        arith,
        fits.numbered,
        mul_le g.bitmap.width (g.clip.y + g.clip.h) (g.bitmap.height + 1)
            (omega (arith, fits.rows)),
      ))
