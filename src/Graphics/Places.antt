-- ===== src/Graphics/Places.antt =====
-- Places of a bitmap and the numbers of their pixels, and what one pixel that is plotted leaves as it
-- was.
use stage_os.Base.{ℕ, ◌+◌, ◌*◌, ◌%◌, ◌^◌, ◌≤◌, ◌<◌, ◌≡◌, ◌≢◌, ◌⊎◌, inl, inr, refl, ==-ne, arith}
use stage_os.Graphics.{Color, Bitmap, Graphics, plot_pixel}
use native.Mathlib.Decide.{dec_lt}

-- A clip lies in its bitmap, whose pixels a 32-bit word can number, with a row to spare.
pub record Fits (g : Graphics) : Type 0 where
  pub columns : g.clip.x + g.clip.w ≤ g.bitmap.width
  pub rows : g.clip.y + g.clip.h ≤ g.bitmap.height
  pub numbered : g.bitmap.width * (g.bitmap.height + 1) ≤ 2 ^ 32
  pub wide : g.bitmap.width < 2 ^ 31
  pub high : g.bitmap.height < 2 ^ 31

pub mul_le : (w a b : ℕ) → a ≤ b → w * a ≤ w * b
mul_le w a b h = grind arith

-- A pixel comes before all of the rows below.
pub before_row : (w p y q : ℕ) → p < w → y < q → w * y + p < w * q
before_row w p y q lt below = let le = mul_le w (y + 1) q (omega arith) in grind arith

-- The numbers of two places in one bitmap differ.
pub place_injective :
    (w px py x y : ℕ) → px < w → x < w → w * py + px ≡ w * y + x → (px ≡ x) × (py ≡ y)
place_injective w px py x y plt xlt e = elim (dec_lt py y) [
  | yes above ↦ absurd (omega (arith, before_row w px py y plt above))
  | no not_above ↦ elim (dec_lt y py) [
    | yes below ↦ absurd (omega (arith, before_row w x y py xlt below))
    | no not_below ↦
        let same : py ≡ y = omega arith in
        let other : w * py ≡ w * y = rw same refl in (omega arith, same)
  ]
]

-- A pixel of another place is as before.
pub plot_pixel_other :
    (b : Bitmap) (x y px py : ℕ) (c : Color)
    → px < b.width
    → x < b.width
    → b.width * y + x < 2 ^ 32
    → (px ≢ x) ⊎ (py ≢ y)
    → (plot_pixel b x y c).pixel (b.width * py + px) ≡ b.pixel (b.width * py + px)
unfolding plot_pixel
plot_pixel_other b x y px py c plt xlt small other =
    let apart : b.width * py + px ≢ (b.width * y + x) % 2 ^ 32 =
      λ e. differ other (place_injective b.width px py x y plt xlt (omega arith)) in
    rw (==-ne _ _ apart) refl
  where
    differ : (px ≢ x) ⊎ (py ≢ y) → (px ≡ x) × (py ≡ y) → ⊥
    differ (inl ne) e = ne e.0
    differ (inr ne) e = ne e.1
