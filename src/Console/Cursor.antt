-- ===== src/Console/Cursor.antt =====
-- Where the cursor of `basekernel/kernel/console.c` is, and what it draws.
use stage_os.Base.{
  ℕ, suc, ◌-◌, ◌/◌, ◌<◌, ◌≤◌, ◌≡◌, ◌≢◌, ◌⊎◌, refl, sym, subst, Bool, false, List, [], ◌∷◌, ◌++◌,
  ◌==◌, leb, Bool-cases, inl, inr, ==-ne, arith,
}
use stage_os.Console.{
  ℤ, pos, negsuc, Console, Drawing, char, clear, put, wrap_left, wrap_right, wrap_down, write_char,
  write_chars, console_write,
}

-- A place on a screen of some size
abbrev pub Within : ℕ → ℤ → Type 0
Within size (pos n) = n < size
Within size (negsuc n) = ⊥

-- The cursor is on the screen, which is as large as the window allows.
pub record OnScreen (width height : ℕ) (d : Console) : Type 0 where
  pub columns : d.xsize ≡ width / 8
  pub rows : d.ysize ≡ height / 8
  pub column : Within d.xsize d.xpos
  pub row : Within d.ysize d.ypos

-- Every character is drawn inside.
abbrev pub Inside : (width height : ℕ) → List Drawing → Type 0
Inside width height [] = Unit {0}
Inside width height (clear ∷ l) = Inside width height l
Inside width height (char x y c ∷ l) =
    Within (width / 8) x × Within (height / 8) y × Inside width height l

Inside-append :
    (width height : ℕ) (l r : List Drawing)
    → Inside width height l
    → Inside width height r
    → Inside width height (l ++ r)
Inside-append width height [] r i j = j
Inside-append width height (clear ∷ l) r i j = Inside-append width height l r i j
Inside-append width height (char x y c ∷ l) r i j = (i.0, i.1, Inside-append width height l r i.2 j)

-- A console at a place, with the sizes of the window
abbrev at_place : (width height : ℕ) → (x y : ℤ) → Bool → Console
at_place width height x y onoff = record {
  xpos = x;
  ypos = y;
  xsize = width / 8;
  ysize = height / 8;
  onoff = onoff;
}

-- The cursor, at most one place behind the screen, comes back.
settle_down :
    (width height x y : ℕ) (b : Bool)
    → x < width / 8
    → y ≤ height / 8
    → 0 < width / 8
    → 0 < height / 8
    → OnScreen width height (wrap_down width height (at_place width height (pos x) (pos y) b)).0
      × Inside width height (wrap_down width height (at_place width height (pos x) (pos y) b)).1
unfolding wrap_down
settle_down width height x y b xlt yle w h = elim (Bool-cases (leb (height / 8) y)) [
  | inl low ↦ rw low (record { columns = refl; rows = refl; column = w; row = h }, tt)
  | inr fine ↦
      rw fine (record { columns = refl; rows = refl; column = xlt; row = ground arith }, tt)
]

settle :
    (width height x y : ℕ) (b : Bool)
    → (x < width / 8) × (y ≤ height / 8) ⊎ (x ≤ width / 8) × (y < height / 8)
    → 0 < width / 8
    → 0 < height / 8
    → OnScreen width height
        (wrap_down width height (
          wrap_right width height
            (wrap_left width height (at_place width height (pos x) (pos y) b)))).0
      × Inside width height
          (wrap_down width height (
            wrap_right width height
              (wrap_left width height (at_place width height (pos x) (pos y) b)))).1
unfolding wrap_left wrap_right
settle width height x y b near w h = elim (Bool-cases (leb (width / 8) x)) [
  | inl right ↦ rw right (settle_down width height 0 (suc y) b w (ground arith) w h)
  | inr fine ↦ rw fine (settle_down width height x y b (ground arith) (ground arith) w h)
]

-- One round from a place on the screen, with a character that is not a backspace
write_at :
    (width height c x y : ℕ) (b : Bool)
    → c ≢ 8
    → x < width / 8
    → y < height / 8
    → OnScreen width height (write_char width height c (at_place width height (pos x) (pos y) b)).0
      × Inside width height (write_char width height c (at_place width height (pos x) (pos y) b)).1
unfolding write_char put
write_at width height c x y b nb xlt ylt =
    let w : 0 < width / 8 = omega arith in
    let h : 0 < height / 8 = omega arith in
    elim (Bool-cases (c == 13)) [
      | inl e ↦ rw e (settle width height 0 (suc y) b (inl (w, ylt)) w h)
      | inr not_cr ↦ elim (Bool-cases (c == 10)) [
        | inl e ↦ rw (not_cr, e) (settle width height 0 (suc y) b (inl (w, ylt)) w h)
        | inr not_lf ↦ elim (Bool-cases (c == 12)) [
          | inl e ↦ rw (not_cr, not_lf, e) (settle width height 0 0 b (inl (w, omega arith)) w h)
          | inr not_ff ↦
              let moved = settle width height (suc x) y b (inr (xlt, ylt)) w h in
              rw (not_cr, not_lf, not_ff, ==-ne c 8 nb) (moved.0, (xlt, ylt, moved.1))
        ]
      ]
    ]

Within-pos : (size : ℕ) (z : ℤ) → Within size z → (n : ℕ) × (z ≡ pos n) × (n < size)
Within-pos size (pos n) h = (n, refl, h)
Within-pos size (negsuc n) h = absurd h

-- A console on the screen has a place there.
OnScreen-place :
    (width height : ℕ) (P : Console → Type 0)
    → ((x y : ℕ) (b : Bool)
        → x < width / 8
        → y < height / 8
        → P (at_place width height (pos x) (pos y) b))
    → (d : Console) → OnScreen width height d
    → P d
OnScreen-place width height P h d on =
    let (x, ex, xlt) = Within-pos d.xsize d.xpos on.column in
    let (y, ey, ylt) = Within-pos d.ysize d.ypos on.row in
    let same : at_place width height (pos x) (pos y) d.onoff ≡ d = λ i. record {
      xpos = sym ex i;
      ypos = sym ey i;
      xsize = sym on.columns i;
      ysize = sym on.rows i;
      onoff = d.onoff;
    } in
    subst P same (h x y d.onoff (omega (arith, on.columns)) (omega (arith, on.rows)))

write_char_lem :
    (width height c : ℕ) (d : Console)
    → c ≢ 8
    → OnScreen width height d
    → OnScreen width height (write_char width height c d).0
      × Inside width height (write_char width height c d).1
write_char_lem width height c d nb on =
    OnScreen-place width height
      (λ d.
        OnScreen width height (write_char width height c d).0
        × Inside width height (write_char width height c d).1)
      (λ x y b xlt ylt. write_at width height c x y b nb xlt ylt) d on

-- No character is a backspace.
abbrev pub NoBackspace : List ℕ → Type 0
NoBackspace [] = Unit {0}
NoBackspace (c ∷ s) = (c ≢ 8) × NoBackspace s

write_chars_lem :
    (width height : ℕ) (s : List ℕ) (d : Console)
    → NoBackspace s
    → OnScreen width height d
    → OnScreen width height (write_chars width height s d).0
      × Inside width height (write_chars width height s d).1
unfolding write_chars
write_chars_lem width height [] d nb on = (on, tt)
write_chars_lem width height (c ∷ s) d nb on =
    let r = write_char_lem width height c d nb.0 on in
    let later = write_chars_lem width height s (write_char width height c d).0 nb.1 r.0 in
    (
      later.0,
      Inside-append width height (write_char width height c d).1
          (write_chars width height s (write_char width height c d).0).1 r.1 later.1,
    )

OnScreen-Inside :
    (width height c : ℕ) (d : Console)
    → OnScreen width height d
    → Inside width height (char d.xpos d.ypos c ∷ [])
OnScreen-Inside width height c d on =
    OnScreen-place width height (λ d. Inside width height (char d.xpos d.ypos c ∷ []))
      (λ x y b xlt ylt. (xlt, ylt, tt)) d on

-- `console_write` of characters without a backspace keeps the cursor on the screen, and draws every
-- character inside the window.
pub console_write-OnScreen :
    (width height : ℕ) (s : List ℕ) (d : Console)
    → NoBackspace s
    → OnScreen width height d
    → OnScreen width height (console_write width height s d).0
      × Inside width height (console_write width height s d).1
unfolding console_write
console_write-OnScreen width height s d nb on =
    let r = write_chars_lem width height s d nb on in
    let start = OnScreen-Inside width height b' ' d on in
    (
      r.0,
      (
        start.0,
        start.1,
        Inside-append width height (write_chars width height s d).1 _ r.1
            (OnScreen-Inside width height b'_' (write_chars width height s d).0 r.0),
      ),
    )

backspace_at :
    (width height k rows : ℕ) (b : Bool)
    → (write_char width height 8
        (record { xpos = pos 0; ypos = pos 0; xsize = suc k; ysize = rows; onoff = b })).0.ypos
      ≡ negsuc 0
unfolding write_char put wrap_left wrap_right wrap_down
backspace_at width height k rows b =
    let inside : leb (suc k) k ≡ false = ground arith in rw inside refl

-- A backspace at the first place of the screen moves the cursor to row -1: the code looks for a column
-- that is negative, not for a row.
pub write_char_backspace :
    (width height : ℕ) (d : Console)
    → d.xpos ≡ pos 0
    → d.ypos ≡ pos 0
    → 0 < d.xsize
    → (write_char width height 8 d).0.ypos ≡ negsuc 0
write_char_backspace width height d x y size =
    let some_column : d.xsize ≡ suc (d.xsize - 1) = omega arith in
    let same : record {
      xpos = pos 0;
      ypos = pos 0;
      xsize = suc (d.xsize - 1);
      ysize = d.ysize;
      onoff = d.onoff;
    }
        ≡ d =
      λ i. record {
        xpos = sym x i;
        ypos = sym y i;
        xsize = sym some_column i;
        ysize = d.ysize;
        onoff = d.onoff;
      } in
    subst (λ d. (write_char width height 8 d).0.ypos ≡ negsuc 0) same
      (backspace_at width height (d.xsize - 1) d.ysize d.onoff)
