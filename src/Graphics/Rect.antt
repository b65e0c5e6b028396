-- ===== src/Graphics/Rect.antt =====
-- `graphics_rect_internal` of `basekernel/kernel/graphics.c`, which `graphics_rect` and
-- `graphics_clear` call.
use stage_os.Base.{
  ℕ, ◌+◌, ◌-◌, ◌*◌, ◌^◌, ◌≤◌, ◌<◌, ◌≡◌, ◌∙◌, refl, true, false, ◌&&◌, ◌||◌, ltb, if◌then◌else◌, min,
  arith, Bool-cases, inl, inr,
}
use stage_os.Graphics.{Color, Bitmap, Graphics, plotted, rect_internal, from_zero, extent, rounds}
use stage_os.Graphics.Places.{Fits, mul_le}
use stage_os.Graphics.Fill.{between, fill_rows-pixel, fill_rows_sizes}
use stage_os.Graphics.Agree.{Agree}

-- What a rectangle of the columns from `x` to `x2` and the rows from `y` to `y2` makes of the bitmap
abbrev pub Filled : Graphics → Color → (x x2 y y2 : ℕ) → Bitmap → Type 0
Filled g c x x2 y y2 b =
    (px py : ℕ)
    → px < g.bitmap.width
    → b.pixel (g.bitmap.width * py + px) ≡ (
        if between y y2 py && between x x2 px
        then plotted c (g.bitmap.pixel (g.bitmap.width * py + px))
        else g.bitmap.pixel (g.bitmap.width * py + px))

-- Behind the clip nothing is drawn.
rect_outside :
    (g : Graphics) (x y w h : ℕ) (c : Color)
    → (ltb g.clip.w (from_zero x) || ltb g.clip.h (from_zero y)) ≡ true
    → rect_internal g x y w h c ≡ g
unfolding rect_internal
rect_outside g x y w h c out = rw out refl

rect_inside :
    (g : Graphics) (x y w h : ℕ) (c : Color) (w' h' : ℕ)
    → Fits g
    → from_zero x ≤ g.clip.w
    → from_zero y ≤ g.clip.h
    → min (g.clip.w - from_zero x) (extent x w) ≡ w'
    → min (g.clip.h - from_zero y) (extent y h) ≡ h'
    → Filled g c
        (from_zero x + g.clip.x)
        (from_zero x + g.clip.x + w')
        (from_zero y + g.clip.y)
        (from_zero y + g.clip.y + h')
        (rect_internal g x y w h c).bitmap
unfolding rect_internal
rect_inside g x y w h c w' h' fits xle yle we he px py plt =
    let right : ltb g.clip.w (from_zero x) ≡ false = ground arith in
    let below : ltb g.clip.h (from_zero y) ≡ false = ground arith in
    let wle : w' ≤ g.clip.w - from_zero x = omega arith in
    let hle : h' ≤ g.clip.h - from_zero y = omega arith in
    let wr : rounds w' ≡ w' = ground (arith, fits.wide, fits.columns) in
    let hr : rounds h' ≡ h' = ground (arith, fits.high, fits.rows) in
    rw (right, below, we, he, wr, hr)
      (fill_rows-pixel g.bitmap (from_zero x + g.clip.x) (from_zero y + g.clip.y) w' h' c px py plt
        (omega (arith, fits.columns))
        (omega (
          arith,
          fits.numbered,
          mul_le g.bitmap.width (from_zero y + g.clip.y + h') (g.bitmap.height + 1)
              (omega (arith, fits.rows)),
        )))

min_span : (x w cw cx : ℕ) → x ≤ cw → x + cx + min (cw - x) w ≡ cx + min (x + w) cw
min_span x w cw cx le = omega arith

-- A rectangle at a place and of sizes that are not negative paints the pixels of the rectangle that lie
-- in the clip, each once, and no other pixel of the bitmap, for a clip that lies in the bitmap.
pub rect_internal-Filled :
    (g : Graphics) (x y w h : ℕ) (c : Color)
    → Fits g
    → x < 2 ^ 31
    → y < 2 ^ 31
    → w < 2 ^ 31
    → h < 2 ^ 31
    → Filled g c
        (x + g.clip.x)
        (g.clip.x + min (x + w) g.clip.w)
        (y + g.clip.y)
        (g.clip.y + min (y + h) g.clip.h)
        (rect_internal g x y w h c).bitmap
rect_internal-Filled g x y w h c fits xs ys ws hs =
    elim (Bool-cases (ltb g.clip.w (from_zero x) || ltb g.clip.h (from_zero y))) [
      | inl out ↦ λ px py plt. rw (rect_outside g x y w h c out) (ground arith)
      | inr inside ↦
          let x0 : from_zero x ≡ x = ground arith in
          let y0 : from_zero y ≡ y = ground arith in
          let xle : x ≤ g.clip.w = ground arith in
          let yle : y ≤ g.clip.h = ground arith in
          let drawn =
            rect_inside g x y w h c (min (g.clip.w - x) w) (min (g.clip.h - y) h) fits
              (ground arith) (ground arith) (ground arith) (ground arith) in
          λ px py plt.
            drawn px py plt
            ∙ rw (x0, y0, min_span x w g.clip.w g.clip.x xle, min_span y h g.clip.h g.clip.y yle)
                refl
    ]

-- A rectangle that lies wholly to the left of the window, begins at one of its rows and has a height that
-- is not negative, is not dropped: it paints its rows over the whole width of the clip, since the
-- negative width that is left counts as a large unsigned one. The clip lies in the bitmap.
pub rect_left_of_window :
    (g : Graphics) (x y w h : ℕ) (c : Color)
    → Fits g
    → 2 ^ 31 ≤ x
    → x + w < 2 ^ 32
    → y ≤ g.clip.h
    → h < 2 ^ 31
    → Filled g c g.clip.x
        (g.clip.x + g.clip.w)
        (y + g.clip.y)
        (g.clip.y + min (y + h) g.clip.h)
        (rect_internal g x y w h c).bitmap
rect_left_of_window g x y w h c fits neg short yle hs =
    let x0 : from_zero x ≡ 0 = ground arith in
    let ysmall : y < 2 ^ 31 = omega (arith, fits.rows, fits.high) in
    let y0 : from_zero y ≡ y = ground arith in
    let whole : min (g.clip.w - from_zero x) (extent x w) ≡ g.clip.w =
      ground (arith, fits.columns, fits.wide) in
    let drawn =
      rect_inside g x y w h c g.clip.w (min (g.clip.h - y) h) fits (ground arith) (ground arith)
        whole (ground arith) in
    λ px py plt. drawn px py plt ∙ rw (x0, y0, min_span y h g.clip.h g.clip.y yle) (ground arith)

-- A rectangle keeps the clip and the sizes of the bitmap.
pub rect_internal_keeps :
    (g : Graphics) (x y w h : ℕ) (c : Color)
    → ((rect_internal g x y w h c).clip ≡ g.clip)
      × ((rect_internal g x y w h c).bitmap.width ≡ g.bitmap.width)
      × ((rect_internal g x y w h c).bitmap.height ≡ g.bitmap.height)
unfolding rect_internal
rect_internal_keeps g x y w h c =
    elim (Bool-cases (ltb g.clip.w (from_zero x) || ltb g.clip.h (from_zero y))) [
      | inl out ↦ rw out (refl, refl, refl)
      | inr inside ↦
          rw inside
            (refl, (fill_rows_sizes g.bitmap _ _ _ _ c).0, (fill_rows_sizes g.bitmap _ _ _ _ c).1)
    ]

-- A rectangle at a place that is not negative changes only pixels in the clip.
pub rect_internal-Agree :
    (g : Graphics) (x y w h : ℕ) (c : Color)
    → Fits g
    → x < 2 ^ 31
    → y < 2 ^ 31
    → w < 2 ^ 31
    → h < 2 ^ 31
    → Agree g.clip.x
        (g.clip.x + g.clip.w)
        g.clip.y
        (g.clip.y + g.clip.h)
        g.bitmap
        (rect_internal g x y w h c).bitmap
rect_internal-Agree g x y w h c fits xs ys ws hs =
    let keeps = rect_internal_keeps g x y w h c in
    record {
      width = keeps.1;
      height = keeps.2;
      pixel =
          λ px py lt out. rect_internal-Filled g x y w h c fits xs ys ws hs px py lt ∙ ground arith;
    }
