-- ===== src/Graphics/Strokes.antt =====
-- The loops of `graphics_line` in `basekernel/kernel/graphics.c`: the places that they plot.
use stage_os.Base.{
  ℕ, zero, suc, ◌+◌, ◌-◌, ◌*◌, ◌^◌, ◌≤◌, ◌<◌, ◌≡◌, refl, subst, ltb, arith, Bool-cases, inl, inr,
}
use stage_os.Graphics.{Color, Bitmap, plot_pixel}
use stage_os.Graphics.Line.{right, down, up, straight, slanted}
use stage_os.Graphics.Agree.{Agree, Agree-trans, plot_pixel-Agree}

-- A straight line is a slanted one of slope 0.
pub straight-slanted :
    (along aside : ℕ × ℕ → ℕ × ℕ) (c : Color) (b : Bitmap) (p : ℕ × ℕ) (n : ℕ)
    → straight along c b p n ≡ slanted along aside c 0 b p 0 n
unfolding straight slanted
straight-slanted along aside c b p zero = refl
straight-slanted along aside c b p (suc n) =
    straight-slanted along aside c (plot_pixel b p.0 p.1 c) (along p) n

module _ (x1 x2 y1 y2 : ℕ) where
  -- The places of an area
  abbrev pub Within : ℕ × ℕ → Type 0
  Within p = (x1 ≤ p.0) × (p.0 < x2) × (y1 ≤ p.1) × (p.1 < y2)

  -- A set of places from which `n` steps along and `m` steps aside stay in the area
  pub record Room (along aside : ℕ × ℕ → ℕ × ℕ) (P : (n m : ℕ) → ℕ × ℕ → Type 0) : Type 0 where
    pub within : (n m : ℕ) (p : ℕ × ℕ) → P n m p → Within p
    pub ahead : (n m : ℕ) (p : ℕ × ℕ) → P (suc n) m p → P n m (along p)
    pub turned : (n m : ℕ) (p : ℕ × ℕ) → P (suc n) (suc m) p → P n m (aside (along p))

  -- A slanted line takes at most as many steps aside as its counter comes to.
  pub slanted-Agree :
      (along aside : ℕ × ℕ → ℕ × ℕ) (P : (n m : ℕ) → ℕ × ℕ → Type 0) (c : Color) (slope : ℕ)
      → Room along aside P
      → (b : Bitmap) (p : ℕ × ℕ) (counter n m : ℕ) → x2 ≤ b.width
      → b.width * y2 ≤ 2 ^ 32
      → P n m p
      → counter + n * slope ≤ 256 * m
      → Agree x1 x2 y1 y2 b (slanted along aside c slope b p counter n)
  unfolding slanted
  slanted-Agree along aside P c slope room b p counter zero m fits small at budget =
      let w = room.within zero m p at in
      plot_pixel-Agree x1 x2 y1 y2 b p.0 p.1 c w.0 w.1 fits w.2 w.3 small
  slanted-Agree along aside P c slope room b p counter (suc n) m fits small at budget =
      let w = room.within (suc n) m p at in
      let one = plot_pixel-Agree x1 x2 y1 y2 b p.0 p.1 c w.0 w.1 fits w.2 w.3 small in
      let total : suc n * slope ≡ slope + n * slope = grind arith in
      Agree-trans x1 x2 y1 y2 b (plot_pixel b p.0 p.1 c) _ one
        (elim (Bool-cases (ltb 256 (counter + slope))) [
          | inr short ↦ rw short (
              slanted-Agree along aside P c slope room (plot_pixel b p.0 p.1 c) (along p)
                (counter + slope) n m (rw one.width fits) (rw one.width small) (room.ahead n m p at)
                (omega arith))
          | inl passed ↦
              let some_left : m ≡ suc (m - 1) = ground arith in
              rw passed (
                slanted-Agree along aside P c slope room (plot_pixel b p.0 p.1 c) (aside (along p))
                  (counter + slope - 256) n (m - 1) (rw one.width fits) (rw one.width small)
                  (room.turned n (m - 1) p (subst (λ k. P (suc n) k p) some_left at))
                  (ground arith))
        ])

  -- The four directions
  abbrev pub DownRight : (n m : ℕ) → ℕ × ℕ → Type 0
  DownRight n m p = (x1 ≤ p.0) × (p.0 + m < x2) × (y1 ≤ p.1) × (p.1 + n < y2)

  abbrev pub RightDown : (n m : ℕ) → ℕ × ℕ → Type 0
  RightDown n m p = (x1 ≤ p.0) × (p.0 + n < x2) × (y1 ≤ p.1) × (p.1 + m < y2)

  abbrev pub RightUp : (n m : ℕ) → ℕ × ℕ → Type 0
  RightUp n m p = (x1 ≤ p.0) × (p.0 + n < x2) × (y1 + m ≤ p.1) × (p.1 < y2) × (p.1 < 2 ^ 32)

  abbrev pub UpRight : (n m : ℕ) → ℕ × ℕ → Type 0
  UpRight n m p = (x1 ≤ p.0) × (p.0 + m < x2) × (y1 + n ≤ p.1) × (p.1 < y2) × (p.1 < 2 ^ 32)

  pub DownRight-Room : Room down right DownRight
  DownRight-Room = record {
    within = λ n m p h. omega arith;
    ahead = λ n m p h. omega arith;
    turned = λ n m p h. omega arith;
  }

  pub RightDown-Room : Room right down RightDown
  RightDown-Room = record {
    within = λ n m p h. omega arith;
    ahead = λ n m p h. omega arith;
    turned = λ n m p h. omega arith;
  }

  pub RightUp-Room : Room right up RightUp
  RightUp-Room = record {
    within = λ n m p h. omega arith;
    ahead = λ n m p h. omega arith;
    turned = λ n m p h. omega arith;
  }

  pub UpRight-Room : Room up right UpRight
  UpRight-Room = record {
    within = λ n m p h. omega arith;
    ahead = λ n m p h. omega arith;
    turned = λ n m p h. omega arith;
  }
