-- ===== src/Graphics/Line.antt =====
-- The lines of `basekernel/kernel/graphics.c`.
use stage_os.Base.{ℕ, zero, suc, ◌+◌, ◌-◌, ◌*◌, ◌/◌, ◌%◌, ◌^◌, ◌||◌, ◌==◌, ltb, leb, if◌then◌else◌}
use stage_os.Graphics.{Color, Bitmap, Graphics, is_negative, plot_pixel}

-- `-x`
abbrev pub negated : ℕ → ℕ
negated x = (2 ^ 32 - x) % 2 ^ 32

-- One step to a neighbouring place
abbrev pub right : ℕ × ℕ → ℕ × ℕ
right p = (p.0 + 1, p.1)

abbrev pub down : ℕ × ℕ → ℕ × ℕ
down p = (p.0, p.1 + 1)

abbrev pub up : ℕ × ℕ → ℕ × ℕ
up p = (p.0, (p.1 + 2 ^ 32 - 1) % 2 ^ 32)

-- The loop of `graphics_line_vert` and `graphics_line_hozo`: a pixel, and `n` more after a step each
unfoldable pub straight : (along : ℕ × ℕ → ℕ × ℕ) → Color → Bitmap → ℕ × ℕ → (n : ℕ) → Bitmap
straight along c b p zero = plot_pixel b p.0 p.1 c
straight along c b p (suc n) = straight along c (plot_pixel b p.0 p.1 c) (along p) n

-- The loop that `graphics_line_q1` to `graphics_line_q4` share: in each round `along` is stepped, and
-- `aside` too when the counter passes FACTOR, which is 256.
unfoldable pub slanted :
    (along aside : ℕ × ℕ → ℕ × ℕ) → Color → (slope : ℕ) → Bitmap → ℕ × ℕ → (counter n : ℕ) → Bitmap
slanted along aside c slope b p counter zero = plot_pixel b p.0 p.1 c
slanted along aside c slope b p counter (suc n) =
    let passed = ltb 256 (counter + slope) in
    slanted along aside c slope (plot_pixel b p.0 p.1 c)
      (if passed then aside (along p) else along p)
      (if passed then counter + slope - 256 else counter + slope) n

-- `graphics_line_vert` for a height that is not negative, and `graphics_line_hozo`. A `do` loop makes
-- a first round in any case.
unfoldable pub line_vert : Graphics → (x y h : ℕ) → Bitmap
unfolding straight
line_vert g x y h = straight down g.fgcolor g.bitmap (x, y) (h - 1)

unfoldable pub line_hozo : Graphics → (x y w : ℕ) → Bitmap
unfolding straight
line_hozo g x y w = straight right g.fgcolor g.bitmap (x, y) (w - 1)

-- `graphics_line_q1` and `graphics_line_q2`
unfoldable pub line_q1 : Graphics → (x y w h : ℕ) → Bitmap
unfolding slanted
line_q1 g x y w h = slanted down right g.fgcolor (256 * w / h) g.bitmap (x, y) 0 (h - 1)

unfoldable pub line_q2 : Graphics → (x y w h : ℕ) → Bitmap
unfolding slanted
line_q2 g x y w h = slanted right down g.fgcolor (256 * h / w) g.bitmap (x, y) 0 (w - 1)

-- `graphics_line_q3` and `graphics_line_q4` for the height `-h`
unfoldable pub line_q3 : Graphics → (x y w h : ℕ) → Bitmap
unfolding slanted
line_q3 g x y w h = slanted right up g.fgcolor (256 * h / w) g.bitmap (x, y) 0 (w - 1)

unfoldable pub line_q4 : Graphics → (x y w h : ℕ) → Bitmap
unfolding slanted
line_q4 g x y w h = slanted up right g.fgcolor (256 * w / h) g.bitmap (x, y) 0 (h - 1)

-- The choice of `graphics_line` among them, at a place of the bitmap
unfoldable pub line_by_slope : Graphics → (x y w h : ℕ) → Bitmap
unfolding line_vert line_hozo line_q1 line_q2 line_q3 line_q4
line_by_slope g x y w h =
    if h == 0
    then line_hozo g x y w
    else if is_negative h
    then (if w == 0
        then line_vert g x ((y + h) % 2 ^ 32) (negated h)
        else if ltb (negated h) w
        then line_q3 g x y w (negated h)
        else line_q4 g x y w (negated h))
    else if w == 0
    then line_vert g x y h
    else if ltb w h
    then line_q1 g x y w h
    else line_q2 g x y w h

-- The part of `graphics_line` for a width that is not negative: the tests against the clip
unfoldable pub line_right : Graphics → (x y w h : ℕ) → Graphics
unfolding line_by_slope
line_right g x y w h =
    if is_negative x || is_negative y || ltb g.clip.w x || ltb g.clip.h y
    then g
    else if leb g.clip.w ((x + w) % 2 ^ 32)
        || leb g.clip.h ((y + h) % 2 ^ 32)
        || is_negative ((y + h) % 2 ^ 32)
    then g
    else record g { bitmap = line_by_slope g (x + g.clip.x) (y + g.clip.y) w h }

-- `graphics_line`
unfoldable pub line : Graphics → (x y w h : ℕ) → Graphics
unfolding line_right
line g x y w h =
    if is_negative w
    then line_right g ((x + w) % 2 ^ 32) ((y + h) % 2 ^ 32) (negated w) (negated h)
    else line_right g x y w h
