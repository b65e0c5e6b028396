-- ===== src/Graphics/Agree.antt =====
-- Bitmaps of `basekernel/kernel/graphics.c` that agree outside an area.
use stage_os.Base.{ℕ, ◌+◌, ◌*◌, ◌^◌, ◌≤◌, ◌<◌, ◌≡◌, ◌∙◌, refl, ap, sym, false, ◌&&◌, arith}
use stage_os.Graphics.{Color, Bitmap, plot_pixel}
use stage_os.Graphics.Places.{mul_le, plot_pixel_other}
use stage_os.Graphics.Fill.{between}

-- Two bitmaps agree but for the columns from `x` to `x2` and the rows from `y` to `y2`.
pub record Agree (x x2 y y2 : ℕ) (b b' : Bitmap) : Type 0 where
  pub width : b'.width ≡ b.width
  pub height : b'.height ≡ b.height
  pub pixel :
      (px py : ℕ)
      → px < b.width
      → (between y y2 py && between x x2 px) ≡ false
      → b'.pixel (b.width * py + px) ≡ b.pixel (b.width * py + px)

pub Agree-refl : (x x2 y y2 : ℕ) (b : Bitmap) → Agree x x2 y y2 b b
Agree-refl x x2 y y2 b = record { width = refl; height = refl; pixel = λ px py lt out. refl }

pub Agree-trans :
    (x x2 y y2 : ℕ) (a b c : Bitmap)
    → Agree x x2 y y2 a b
    → Agree x x2 y y2 b c
    → Agree x x2 y y2 a c
Agree-trans x x2 y y2 a b c p q = record {
  width = q.width ∙ p.width;
  height = q.height ∙ p.height;
  pixel = λ px py lt out.
      ap (λ k. c.pixel (k * py + px)) (sym p.width)
      ∙ q.pixel px py (rw p.width lt) out
      ∙ ap (λ k. b.pixel (k * py + px)) p.width
      ∙ p.pixel px py lt out;
}

-- The area may be made larger.
pub Agree-mono :
    (x x2 y y2 u u2 v v2 : ℕ) (b b' : Bitmap)
    → u ≤ x
    → x2 ≤ u2
    → v ≤ y
    → y2 ≤ v2
    → Agree x x2 y y2 b b'
    → Agree u u2 v v2 b b'
Agree-mono x x2 y y2 u u2 v v2 b b' ux xu vy yv p = record {
  width = p.width;
  height = p.height;
  pixel = λ px py lt out. p.pixel px py lt (ground arith);
}

-- Plotting a place of the area
pub plot_pixel-Agree :
    (x x2 y y2 : ℕ) (b : Bitmap) (px py : ℕ) (c : Color)
    → x ≤ px
    → px < x2
    → x2 ≤ b.width
    → y ≤ py
    → py < y2
    → b.width * y2 ≤ 2 ^ 32
    → Agree x x2 y y2 b (plot_pixel b px py c)
unfolding plot_pixel
plot_pixel-Agree x x2 y y2 b px py c xle xlt fits yle ylt small = record {
  width = refl;
  height = refl;
  pixel = λ qx qy lt out.
      plot_pixel_other b px py qx qy c lt (omega arith) (grind (arith, mul_le b.width (py + 1) y2))
        (ground arith);
}
