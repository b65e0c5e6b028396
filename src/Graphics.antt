-- ===== src/Graphics.antt =====
-- `basekernel/kernel/graphics.c`: pixels, rectangles, lines and characters in the clip of a bitmap. A
-- C `int` is its 32-bit pattern, and the counts of references are left out.
pub mod Line
pub mod Places
pub mod Fill
pub mod Rect
pub mod Agree
pub mod Chars
pub mod Strokes
pub mod Lines
pub mod Below
pub mod Clips
pub mod Commands
pub mod Stream
mod Tests
use stage_os.Base.{
  ℕ, zero, suc, ◌+◌, ◌-◌, ◌*◌, ◌/◌, ◌%◌, ◌^◌, Bool, true, false, ◌||◌, Option, none, some, ◌==◌,
  ltb, leb, if◌then◌else◌, min,
}

-- `struct graphics_color`
pub record Color : Type 0 where
  pub r : ℕ
  pub g : ℕ
  pub b : ℕ
  pub a : ℕ

-- The bytes `v[0]`, `v[1]` and `v[2]` of a pixel
pub record Pixel : Type 0 where
  pub blue : ℕ
  pub green : ℕ
  pub red : ℕ

-- `struct bitmap`: `pixel i` is at byte `3 * i` of its data.
pub record Bitmap : Type 0 where
  pub width : ℕ
  pub height : ℕ
  pub pixel : ℕ → Pixel

-- `struct graphics_clip`
pub record Clip : Type 0 where
  pub x : ℕ
  pub y : ℕ
  pub w : ℕ
  pub h : ℕ

-- `struct graphics`
pub record Graphics : Type 0 where
  pub bitmap : Bitmap
  pub fgcolor : Color
  pub bgcolor : Color
  pub clip : Clip

-- A pattern stands for a negative `int`.
abbrev pub is_negative : ℕ → Bool
is_negative x = leb (2 ^ 31) x

-- The rounds of `for(i = 0; i < n; i++)`
abbrev pub rounds : ℕ → ℕ
rounds n = if is_negative n then 0 else n

-- One byte of a blended pixel
abbrev pub blend : (a c v : ℕ) → ℕ
blend a c v = (c * (256 - a) + v * a) / 2 ^ 8 % 256

-- What `plot_pixel` makes of a pixel. A blended pixel takes the red of the colour as its blue, and the
-- blue as its red.
unfoldable pub plotted : Color → Pixel → Pixel
plotted c v = if c.a == 0 then record { blue = c.b; green = c.g; red = c.r } else record {
  blue = blend c.a c.r v.blue;
  green = blend c.a c.g v.green;
  red = blend c.a c.b v.red;
}

-- The number of a pixel
abbrev pub place : Bitmap → (x y : ℕ) → ℕ
place b x y = (b.width * y + x) % 2 ^ 32

-- `plot_pixel`
unfoldable pub plot_pixel : Bitmap → (x y : ℕ) → Color → Bitmap
plot_pixel b x y c = record b {
  pixel = λ i. if i == place b x y then plotted c (b.pixel i) else b.pixel i;
}

-- The inner loop of `graphics_rect_internal`, `n` pixels from `x` on. The number of a pixel depends on
-- its place modulo 2 ^ 32 only, so the sums of the loops need no other remainder.
unfoldable pub fill_row : Bitmap → (x y n : ℕ) → Color → Bitmap
fill_row b x y zero c = b
fill_row b x y (suc n) c = fill_row (plot_pixel b x y c) (x + 1) y n c

-- Its outer loop, `n` rows from `y` on
unfoldable pub fill_rows : Bitmap → (x y w n : ℕ) → Color → Bitmap
fill_rows b x y w zero c = b
fill_rows b x y w (suc n) c = fill_rows (fill_row b x y w c) x (y + 1) w n c

-- The extent from 0 on of a range that begins at `x`
abbrev pub extent : (x w : ℕ) → ℕ
extent x w = if is_negative x then (w + x) % 2 ^ 32 else w

abbrev pub from_zero : ℕ → ℕ
from_zero x = if is_negative x then 0 else x

-- `graphics_rect_internal`; its comparisons with the clip are unsigned.
unfoldable pub rect_internal : Graphics → (x y w h : ℕ) → Color → Graphics
rect_internal g x y w h c =
    let x' = from_zero x in
    let y' = from_zero y in
    let w' = min (g.clip.w - x') (extent x w) in
    let h' = min (g.clip.h - y') (extent y h) in
    if ltb g.clip.w x' || ltb g.clip.h y' then g else record g {
      bitmap = fill_rows g.bitmap (x' + g.clip.x) (y' + g.clip.y) (rounds w') (rounds h') c;
    }

-- `graphics_rect`
unfoldable pub rect : Graphics → (x y w h : ℕ) → Graphics
unfolding rect_internal
rect g x y w h = rect_internal g x y w h g.fgcolor

-- `graphics_clear`
unfoldable pub clear : Graphics → (x y w h : ℕ) → Graphics
unfolding rect_internal
clear g x y w h = rect_internal g x y w h g.bgcolor

-- `graphics_fgcolor` and `graphics_bgcolor`
abbrev pub set_fgcolor : Graphics → Color → Graphics
set_fgcolor g c = record g { fgcolor = c }

abbrev pub set_bgcolor : Graphics → Color → Graphics
set_bgcolor g c = record g { bgcolor = c }

-- `graphics_clip`: whether it succeeds. The row is compared with the width of the bitmap.
unfoldable pub set_clip : Graphics → (x y w h : ℕ) → Bool × Graphics
set_clip g x y w h =
    let x' = (x + g.clip.x) % 2 ^ 32 in
    let y' = (y + g.clip.y) % 2 ^ 32 in
    if is_negative x || is_negative y || is_negative w || is_negative h
    then (false, g)
    else if leb g.bitmap.width x' || leb g.bitmap.width y'
    then (false, g)
    else if leb g.bitmap.width ((x' + w) % 2 ^ 32) || leb g.bitmap.height ((y' + h) % 2 ^ 32)
    then (false, g)
    else (true, record g { clip = record { x = x'; y = y'; w = w; h = h } })

-- The inner loop of `graphics_bitmap`: `n` pixels from `x` on, for the bits of `bits` from bit `b` of
-- byte `at` on; also where the next bit is
unfoldable pub draw_row :
    (fg bg : Color) (bits : ℕ → ℕ) → Bitmap → (x y n at b : ℕ) → Bitmap × ℕ × ℕ
draw_row fg bg bits m x y zero at b = (m, at, b)
draw_row fg bg bits m x y (suc n) at b =
    let c = if bits at * 2 ^ b / 128 % 2 == 1 then fg else bg in
    draw_row fg bg bits (plot_pixel m x y c) (x + 1) y n (if b + 1 == 8 then at + 1 else at)
      (if b + 1 == 8 then 0 else b + 1)

-- Its outer loop
unfoldable pub draw_rows : (fg bg : Color) (bits : ℕ → ℕ) → Bitmap → (x y w n at b : ℕ) → Bitmap
draw_rows fg bg bits m x y w zero at b = m
draw_rows fg bg bits m x y w (suc n) at b =
    let r = draw_row fg bg bits m x y w at b in draw_rows fg bg bits r.0 x (y + 1) w n r.1 r.2

-- `graphics_bitmap`
unfoldable pub draw_bitmap : Graphics → (x y width height : ℕ) → (ℕ → ℕ) → Graphics
draw_bitmap g x y width height bits =
    let w = min ((g.clip.w + 2 ^ 32 - x) % 2 ^ 32) width in
    let h = min ((g.clip.h + 2 ^ 32 - y) % 2 ^ 32) height in
    record g {
      bitmap =
          draw_rows g.fgcolor g.bgcolor bits g.bitmap (x + g.clip.x) (y + g.clip.y) (rounds w)
            (rounds h) 0 0;
    }

-- `graphics_char` with the table `font` of the kernel, of eight bytes to a character
unfoldable pub draw_char : (font : ℕ → ℕ) → Graphics → (x y c : ℕ) → Graphics
unfolding draw_bitmap
draw_char font g x y c = draw_bitmap g x y 8 8 (λ i. font (c * 8 * 8 / 8 + i))
