-- ===== src/Graphics/Fill.antt =====
-- The rectangles of `basekernel/kernel/graphics.c`.
use stage_os.Base.{
  ℕ, zero, suc, ◌+◌, ◌*◌, ◌%◌, ◌^◌, ◌≤◌, ◌<◌, ◌≡◌, ◌∙◌, refl, ap, sym, Bool, true, false, ◌&&◌,
  ◌==◌, ltb, leb, if◌then◌else◌, arith,
}
use stage_os.Graphics.{Color, Pixel, Bitmap, plotted, plot_pixel, fill_row, fill_rows}
use stage_os.Graphics.Places.{mul_le, before_row}
use native.Mathlib.Decide.{dec_lt}

-- `p` lies from `lo` on and before `hi`.
abbrev pub between : (lo hi p : ℕ) → Bool
between lo hi p = leb lo p && ltb p hi

fill_row-width : (b : Bitmap) (x y n : ℕ) (c : Color) → (fill_row b x y n c).width ≡ b.width
unfolding fill_row plot_pixel
fill_row-width b x y zero c = refl
fill_row-width b x y (suc n) c = fill_row-width (plot_pixel b x y c) (x + 1) y n c

fill_row-height : (b : Bitmap) (x y n : ℕ) (c : Color) → (fill_row b x y n c).height ≡ b.height
unfolding fill_row plot_pixel
fill_row-height b x y zero c = refl
fill_row-height b x y (suc n) c = fill_row-height (plot_pixel b x y c) (x + 1) y n c

pub fill_rows_sizes :
    (b : Bitmap) (x y w n : ℕ) (c : Color)
    → ((fill_rows b x y w n c).width ≡ b.width) × ((fill_rows b x y w n c).height ≡ b.height)
unfolding fill_rows
fill_rows_sizes b x y w zero c = (refl, refl)
fill_rows_sizes b x y w (suc n) c =
    let r = fill_rows_sizes (fill_row b x y w c) x (y + 1) w n c in
    (r.0 ∙ fill_row-width b x y w c, r.1 ∙ fill_row-height b x y w c)

one_more :
    (k n i : ℕ) (c : Color) (v : Pixel)
    → (if between (k + 1) (k + 1 + n) i
        then plotted c (if i == k then plotted c v else v)
        else (if i == k then plotted c v else v))
      ≡ (if between k (k + suc n) i then plotted c v else v)
one_more k n i c v = ground arith

fill_row-pixel :
    (b : Bitmap) (x y n : ℕ) (c : Color) (i : ℕ)
    → b.width * y + x + n ≤ 2 ^ 32
    → (fill_row b x y n c).pixel i ≡ (
        if between (b.width * y + x) (b.width * y + x + n) i
        then plotted c (b.pixel i)
        else b.pixel i)
unfolding fill_row plot_pixel
fill_row-pixel b x y zero c i le = ground arith
fill_row-pixel b x y (suc n) c i le =
    let k : ℕ = b.width * y + x in
    let here : k % 2 ^ 32 ≡ k = omega arith in
    let behind : b.width * y + (x + 1) ≡ k + 1 = omega arith in
    fill_row-pixel (plot_pixel b x y c) (x + 1) y n c i (omega arith)
    ∙ rw (behind, here) (one_more k n i c (b.pixel i))

-- The pixels of a row, by column and row
in_row :
    (w x n y px py : ℕ)
    → px < w
    → x + n ≤ w
    → between (w * y + x) (w * y + x + n) (w * py + px) ≡ (py == y && between x (x + n) px)
in_row w x n y px py plt fits = elim (dec_lt py y) [
  | yes above ↦ ground (arith, before_row w px py y plt above)
  | no not_above ↦ elim (dec_lt y py) [
    | yes below ↦
        let le = mul_le w (y + 1) py (omega arith) in
        let next : w * (y + 1) ≡ w * y + w = grind arith in ground arith
    | no not_below ↦ let same : py ≡ y = omega arith in rw same (ground arith)
  ]
]

one_row_more :
    (y n py : ℕ) (col : Bool) (c : Color) (v : Pixel)
    → (if between (y + 1) (y + 1 + n) py && col
        then plotted c (if py == y && col then plotted c v else v)
        else (if py == y && col then plotted c v else v))
      ≡ (if between y (y + suc n) py && col then plotted c v else v)
one_row_more y n py true c v = ground arith
one_row_more y n py false c v = ground arith

pub fill_rows-pixel :
    (b : Bitmap) (x y w n : ℕ) (c : Color) (px py : ℕ)
    → px < b.width
    → x + w ≤ b.width
    → b.width * (y + n) ≤ 2 ^ 32
    → (fill_rows b x y w n c).pixel (b.width * py + px) ≡ (
        if between y (y + n) py && between x (x + w) px
        then plotted c (b.pixel (b.width * py + px))
        else b.pixel (b.width * py + px))
unfolding fill_rows
fill_rows-pixel b x y w zero c px py plt fits small = ground arith
fill_rows-pixel b x y w (suc n) c px py plt fits small =
    let row : Bitmap = fill_row b x y w c in
    let wide : row.width ≡ b.width = fill_row-width b x y w c in
    let room : b.width * y + b.width ≤ 2 ^ 32 = grind (arith, mul_le b.width (y + 1) (y + suc n)) in
    let rest =
      fill_rows-pixel row x (y + 1) w n c px py (rw wide plt) (rw wide fits)
        (rw wide (grind (arith, mul_le b.width (y + 1 + n) (y + suc n)))) in
    let this : row.pixel (b.width * py + px) ≡ (
        if py == y && between x (x + w) px
        then plotted c (b.pixel (b.width * py + px))
        else b.pixel (b.width * py + px)) =
      fill_row-pixel b x y w c (b.width * py + px) (omega arith)
      ∙ rw (in_row b.width x w y px py plt fits) refl in
    ap (λ k. (fill_rows row x (y + 1) w n c).pixel (k * py + px)) (sym wide)
    ∙ rest
    ∙ rw (wide, this) (one_row_more y n py (between x (x + w) px) c (b.pixel (b.width * py + px)))
