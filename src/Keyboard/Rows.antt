-- ===== src/Keyboard/Rows.antt =====
-- The rows of a keymap, `basekernel/kernel/keymap.h`, and the constants of
-- `basekernel/kernel/keymap.c`.
use stage_os.Base.{ℕ}

-- `struct keymap`, each `char` as its byte
pub record Keymap : Type 0 where
  pub normal : ℕ
  pub shifted : ℕ
  pub ctrled : ℕ
  pub special : ℕ
  pub altgr : ℕ

abbrev pub key : (normal shifted ctrled special altgr : ℕ) → Keymap
key normal shifted ctrled special altgr = record {
  normal = normal;
  shifted = shifted;
  ctrled = ctrled;
  special = special;
  altgr = altgr;
}

-- `KEY_INVALID`
abbrev pub invalid : ℕ
invalid = 255

abbrev pub shift : ℕ
shift = 1

abbrev pub alt : ℕ
alt = 2

abbrev pub ctrl : ℕ
ctrl = 3

abbrev pub capslock : ℕ
capslock = 4

abbrev pub numlock : ℕ
numlock = 5

abbrev pub alpha : ℕ
alpha = 6

abbrev pub numpad : ℕ
numpad = 8
