-- ===== src/Keyboard/Layouts.antt =====
-- The tables that the command `kb_layout` of `basekernel/kernel/kshell.c` puts in: what Ctrl gives on
-- their letter keys.
use stage_os.Base.{
  ℕ, ◌+◌, ◌<◌, ◌≡◌, ◌↔◌, refl, Bool, true, false, not, ◌&&◌, ◌||◌, arith, ◌==◌, if◌then◌else◌,
  get_or, all_below, all_below-at,
}
use stage_os.Keyboard.Rows.{Keymap, alpha}
use stage_os.Keyboard.Us.{keymapus}
use stage_os.Keyboard.Fr.{keymapfr}
use stage_os.Keyboard.{Keyboard, no_key, us, fr, kb_layout}

-- The row gives a capital letter with Shift, the small one without, and its control character with
-- Ctrl.
controls : Keymap → Bool
controls k = k.ctrled + 64 == k.shifted && k.normal == k.shifted + 32

letters_us : Keymap → Bool
unfolding controls
letters_us k = if k.special == alpha then controls k else true

-- The keys of Q, W, A and Z on an American keyboard.
abbrev swapped : ℕ → Bool
swapped code = code == 0x10 || code == 0x11 || code == 0x1E || code == 0x2C

letters_fr : ℕ → Keymap → Bool
unfolding controls
letters_fr code k =
    if k.special == alpha then (if controls k then not (swapped code) else swapped code) else true

us_table : all_below 128 (λ i. letters_us (get_or keymapus i no_key)) ≡ true
unfolding all_below letters_us
us_table = refl

fr_table : all_below 128 (λ i. letters_fr i (get_or keymapfr i no_key)) ≡ true
unfolding all_below letters_fr
fr_table = refl

of_letters_us :
    (k : Keymap)
    → letters_us k ≡ true
    → k.special ≡ alpha
    → (k.ctrled + 64 ≡ k.shifted) × (k.normal ≡ k.shifted + 32)
unfolding letters_us
of_letters_us k h e = ground arith

of_letters_fr :
    (code : ℕ) (k : Keymap)
    → letters_fr code k ≡ true
    → k.special ≡ alpha
    → (k.ctrled + 64 ≡ k.shifted) × (k.normal ≡ k.shifted + 32) ↔ (swapped code ≡ false)
unfolding letters_fr
of_letters_fr code k h e = (λ r. ground arith, λ r. ground arith)

-- On the American table every letter key gives its control character with Ctrl, and its capital with
-- Shift.
pub ctrl_us :
    (s : Keyboard) (code : ℕ)
    → code < 128
    → let k = get_or (kb_layout us s).keymap code no_key in
      k.special ≡ alpha → (k.ctrled + 64 ≡ k.shifted) × (k.normal ≡ k.shifted + 32)
unfolding kb_layout
ctrl_us s code h e =
    of_letters_us (get_or keymapus code no_key)
      (all_below-at 128 (λ i. letters_us (get_or keymapus i no_key)) code us_table h) e

-- On the French table a letter key gives its control character with Ctrl unless it is one of the four
-- keys on which the two tables have other letters: those keep the control characters of the American
-- letters.
pub ctrl_fr :
    (s : Keyboard) (code : ℕ)
    → code < 128
    → let k = get_or (kb_layout fr s).keymap code no_key in
      k.special ≡ alpha
      → (k.ctrled + 64 ≡ k.shifted) × (k.normal ≡ k.shifted + 32) ↔ (swapped code ≡ false)
unfolding kb_layout
ctrl_fr s code h e =
    of_letters_fr code (get_or keymapfr code no_key)
      (all_below-at 128 (λ i. letters_fr i (get_or keymapfr i no_key)) code fr_table h) e
