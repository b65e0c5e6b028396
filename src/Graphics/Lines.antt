-- ===== src/Graphics/Lines.antt =====
-- `graphics_line` of `basekernel/kernel/graphics.c`: where it draws.
use stage_os.Base.{
  ℕ, zero, suc, ◌+◌, ◌-◌, ◌*◌, ◌/◌, ◌%◌, ◌^◌, ◌≤◌, ◌<◌, ◌≡◌, sym, subst, true, false, ◌||◌, ◌==◌,
  ltb, leb, arith, Bool-cases, inl, inr, ◌⊎◌,
}
use stage_os.Graphics.{Bitmap, Graphics, is_negative}
use native.Mathlib.Decide.{dec_lt}
use stage_os.Graphics.Line.{
  right, down, up, negated, line_vert, line_hozo, line_q1, line_q2, line_q3, line_q4, line_by_slope,
  line_right, line,
}
use stage_os.Graphics.Places.{Fits, mul_le}
use stage_os.Graphics.Agree.{Agree, Agree-refl}
use stage_os.Graphics.Strokes.{
  straight-slanted, slanted-Agree, DownRight, RightDown, RightUp, UpRight, DownRight-Room,
  RightDown-Room, RightUp-Room, UpRight-Room,
}

pred_mul : (k q : ℕ) → 0 < k → (k - 1) * q + q ≡ q * k
pred_mul zero q pos = absurd (omega arith)
pred_mul (suc k) q pos = let less : suc k - 1 ≡ k = omega arith in rw less (grind arith)

-- The steps aside that a slope makes come to no more than the other extent.
pub slope_budget : (a k : ℕ) → 0 < k → 0 + (k - 1) * (256 * a / k) ≤ 256 * a
slope_budget a k pos =
    let whole : 256 * a / k * k ≤ 256 * a = grind arith in
    omega (arith, pred_mul k (256 * a / k) pos)

module _ (g : Graphics) (x1 x2 y1 y2 : ℕ) (fits : x2 ≤ g.bitmap.width)
    (small : g.bitmap.width * y2 ≤ 2 ^ 32) where
  abbrev Drawn : Bitmap → Type 0
  Drawn b = Agree x1 x2 y1 y2 g.bitmap b

  flat : (w : ℕ) → (w - 1) * 0 ≤ 256 * 0
  flat w = omega arith

  line_vert-Agree :
      (x y h : ℕ) → x1 ≤ x → x < x2 → y1 ≤ y → y + (h - 1) < y2 → Drawn (line_vert g x y h)
  unfolding line_vert
  line_vert-Agree x y h a b c d =
      subst (Agree x1 x2 y1 y2 g.bitmap)
        (sym (straight-slanted down right g.fgcolor g.bitmap (x, y) (h - 1)))
        (slanted-Agree x1 x2 y1 y2 down right (DownRight x1 x2 y1 y2) g.fgcolor 0
          (DownRight-Room x1 x2 y1 y2) g.bitmap (x, y) 0 (h - 1) 0 fits small (omega arith)
          (omega arith))

  line_hozo-Agree :
      (x y w : ℕ) → x1 ≤ x → x + (w - 1) < x2 → y1 ≤ y → y < y2 → Drawn (line_hozo g x y w)
  unfolding line_hozo
  line_hozo-Agree x y w a b c d =
      subst (Agree x1 x2 y1 y2 g.bitmap)
        (sym (straight-slanted right down g.fgcolor g.bitmap (x, y) (w - 1)))
        (slanted-Agree x1 x2 y1 y2 right down (RightDown x1 x2 y1 y2) g.fgcolor 0
          (RightDown-Room x1 x2 y1 y2) g.bitmap (x, y) 0 (w - 1) 0 fits small (omega arith)
          (omega arith))

  line_q1-Agree :
      (x y w h : ℕ) → 0 < h → x1 ≤ x → x + w < x2 → y1 ≤ y → y + h < y2 → Drawn (line_q1 g x y w h)
  unfolding line_q1
  line_q1-Agree x y w h pos a b c d =
      slanted-Agree x1 x2 y1 y2 down right (DownRight x1 x2 y1 y2) g.fgcolor (256 * w / h)
        (DownRight-Room x1 x2 y1 y2) g.bitmap (x, y) 0 (h - 1) w fits small (omega arith)
        (slope_budget w h pos)

  line_q2-Agree :
      (x y w h : ℕ) → 0 < w → x1 ≤ x → x + w < x2 → y1 ≤ y → y + h < y2 → Drawn (line_q2 g x y w h)
  unfolding line_q2
  line_q2-Agree x y w h pos a b c d =
      slanted-Agree x1 x2 y1 y2 right down (RightDown x1 x2 y1 y2) g.fgcolor (256 * h / w)
        (RightDown-Room x1 x2 y1 y2) g.bitmap (x, y) 0 (w - 1) h fits small (omega arith)
        (slope_budget h w pos)

  line_q3-Agree :
      (x y w h : ℕ)
      → 0 < w
      → x1 ≤ x
      → x + w < x2
      → y1 + h ≤ y
      → y < y2
      → y < 2 ^ 32
      → Drawn (line_q3 g x y w h)
  unfolding line_q3
  line_q3-Agree x y w h pos a b c d e =
      slanted-Agree x1 x2 y1 y2 right up (RightUp x1 x2 y1 y2) g.fgcolor (256 * h / w)
        (RightUp-Room x1 x2 y1 y2) g.bitmap (x, y) 0 (w - 1) h fits small (omega arith)
        (slope_budget h w pos)

  line_q4-Agree :
      (x y w h : ℕ)
      → 0 < h
      → x1 ≤ x
      → x + w < x2
      → y1 + h ≤ y
      → y < y2
      → y < 2 ^ 32
      → Drawn (line_q4 g x y w h)
  unfolding line_q4
  line_q4-Agree x y w h pos a b c d e =
      slanted-Agree x1 x2 y1 y2 up right (UpRight x1 x2 y1 y2) g.fgcolor (256 * w / h)
        (UpRight-Room x1 x2 y1 y2) g.bitmap (x, y) 0 (h - 1) w fits small (omega arith)
        (slope_budget w h pos)

  -- A line whose ends lie in the area
  line_by_slope-Agree :
      (x y w h : ℕ)
      → x1 ≤ x
      → x + w < x2
      → y1 ≤ y
      → y < y2
      → y < 2 ^ 32
      → h < 2 ^ 32
      → ((h < 2 ^ 31) × (y + h < y2)) ⊎ ((2 ^ 31 ≤ h) × (y1 + (2 ^ 32 - h) ≤ y))
      → Drawn (line_by_slope g x y w h)
  unfolding line_by_slope
  line_by_slope-Agree x y w h a b c d e word (inl (pos, ends)) = elim (Bool-cases (h == 0)) [
    | inl level ↦ rw level (line_hozo-Agree x y w a (omega arith) c d)
    | inr some_height ↦
        let hpos : 0 < h = ground arith in
        let sign : is_negative h ≡ false = ground arith in
        rw (some_height, sign)
          (elim (Bool-cases (w == 0)) [
            | inl none_wide ↦ rw none_wide (line_vert-Agree x y h a (omega arith) c (omega arith))
            | inr some_width ↦ rw some_width (elim (Bool-cases (ltb w h)) [
              | inl steep ↦ rw steep (line_q1-Agree x y w h hpos a b c ends)
              | inr shallow ↦ rw shallow (line_q2-Agree x y w h (ground arith) a b c ends)
            ])
          ])
  ]
  line_by_slope-Agree x y w h a b c d e word (inr (neg, ends)) =
      let some_height : (h == 0) ≡ false = ground arith in
      let sign : is_negative h ≡ true = ground arith in
      let size : negated h ≡ 2 ^ 32 - h = omega arith in
      rw (some_height, sign)
        (elim (Bool-cases (w == 0)) [
          | inl none_wide ↦ rw none_wide (
              line_vert-Agree x ((y + h) % 2 ^ 32) (negated h) a (omega arith) (omega arith)
                (omega arith))
          | inr some_width ↦ rw some_width (elim (Bool-cases (ltb (negated h) w)) [
            | inl shallow ↦
                rw shallow (line_q3-Agree x y w (negated h) (ground arith) a b (omega arith) d e)
            | inr steep ↦
                rw steep (line_q4-Agree x y w (negated h) (omega arith) a b (omega arith) d e)
          ])
        ])

line_right-Agree :
    (g : Graphics) (x y w h : ℕ)
    → Fits g
    → w ≤ 2 ^ 31
    → h < 2 ^ 32
    → Agree g.clip.x
        (g.clip.x + g.clip.w)
        g.clip.y
        (g.clip.y + g.clip.h + 1)
        g.bitmap
        (line_right g x y w h).bitmap
unfolding line_right
line_right-Agree g x y w h fits ws hs =
    elim (Bool-cases (is_negative x || is_negative y || ltb g.clip.w x || ltb g.clip.h y)) [
      | inl out ↦ rw out (Agree-refl _ _ _ _ g.bitmap)
      | inr start ↦
          rw start
            (elim (Bool-cases (
              leb g.clip.w ((x + w) % 2 ^ 32)
              || leb g.clip.h ((y + h) % 2 ^ 32)
              || is_negative ((y + h) % 2 ^ 32))) [
                | inl out ↦ rw out (Agree-refl _ _ _ _ g.bitmap)
                | inr ends ↦
                    let xs : x < 2 ^ 31 = ground arith in
                    let ys : y < 2 ^ 31 = ground arith in
                    let yle : y ≤ g.clip.h = ground arith in
                    let wlt : (x + w) % 2 ^ 32 < g.clip.w = ground arith in
                    let hlt : (y + h) % 2 ^ 32 < g.clip.h = ground arith in
                    let hh : g.clip.h < 2 ^ 31 = omega (arith, fits.rows, fits.high) in
                    let room : g.bitmap.width * (g.clip.y + g.clip.h + 1) ≤ 2 ^ 32 = omega (
                      arith,
                      fits.numbered,
                      mul_le g.bitmap.width (g.clip.y + g.clip.h + 1) (g.bitmap.height + 1)
                          (omega (arith, fits.rows)),
                    ) in
                    rw ends (
                      line_by_slope-Agree g g.clip.x (g.clip.x + g.clip.w) g.clip.y
                        (g.clip.y + g.clip.h + 1) fits.columns room (x + g.clip.x) (y + g.clip.y) w
                        h (omega arith) (omega arith) (omega arith) (omega arith)
                        (omega (arith, fits.rows, fits.high)) hs
                        (elim (dec_lt h (2 ^ 31)) [
                          | yes p ↦ inl (p, omega arith)
                          | no p ↦ inr (omega arith, omega arith)
                        ]))
              ])
    ]

-- A line, whatever its ends, changes only pixels in the columns of the clip, and in its rows or the row
-- below them, for a clip that lies in the bitmap.
pub line-Agree :
    (g : Graphics) (x y w h : ℕ)
    → Fits g
    → w < 2 ^ 32
    → h < 2 ^ 32
    → Agree g.clip.x
        (g.clip.x + g.clip.w)
        g.clip.y
        (g.clip.y + g.clip.h + 1)
        g.bitmap
        (line g x y w h).bitmap
unfolding line
line-Agree g x y w h fits ws hs = elim (Bool-cases (is_negative w)) [
  | inl back ↦ rw back (
      line_right-Agree g ((x + w) % 2 ^ 32) ((y + h) % 2 ^ 32) (negated w) (negated h) fits
        (ground arith) (omega arith))
  | inr on ↦ rw on (line_right-Agree g x y w h fits (ground arith) hs)
]
