-- ===== src/Graphics/Clips.antt =====
-- `graphics_clip` of `basekernel/kernel/graphics.c`: the clips that it accepts.
use stage_os.Base.{ℕ, ◌+◌, ◌%◌, ◌^◌, ◌<◌, ◌||◌, leb, arith, Bool-cases, inl, inr}
use stage_os.Graphics.{Graphics, is_negative, set_clip}
use stage_os.Graphics.Places.{Fits}

-- A clip that `graphics_clip` sets lies in the bitmap, whatever the arguments are.
pub set_clip-Fits : (g : Graphics) (x y w h : ℕ) → Fits g → Fits (set_clip g x y w h).1
unfolding set_clip
set_clip-Fits g x y w h fits =
    let x' : ℕ = (x + g.clip.x) % 2 ^ 32 in
    let y' : ℕ = (y + g.clip.y) % 2 ^ 32 in
    elim (Bool-cases (is_negative x || is_negative y || is_negative w || is_negative h)) [
      | inl negative ↦ rw negative fits
      | inr signs ↦ elim (Bool-cases (leb g.bitmap.width x' || leb g.bitmap.width y')) [
        | inl out ↦ rw (signs, out) fits
        | inr start ↦
            elim (Bool-cases
              (leb g.bitmap.width ((x' + w) % 2 ^ 32) || leb g.bitmap.height ((y' + h) % 2 ^ 32))) [
                | inl out ↦ rw (signs, start, out) fits
                | inr ends ↦
                    let wide : g.bitmap.width < 2 ^ 31 = fits.wide in
                    rw (signs, start, ends)
                      (record {
                        columns = ground arith;
                        rows = ground arith;
                        numbered = fits.numbered;
                        wide = fits.wide;
                        high = fits.high;
                      })
              ]
      ]
    ]
