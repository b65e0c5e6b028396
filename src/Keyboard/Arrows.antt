-- ===== src/Keyboard/Arrows.antt =====
-- The arrow keys of `basekernel/kernel/keyboard.c`, which send the byte 0xE0 first.
use stage_os.Base.{ℕ, ◌-◌, ◌≡◌, ◌≢◌, true, false, arith, get_or}
use stage_os.Keyboard.Rows.{Keymap}
use stage_os.Keyboard.{Keyboard, event, key_down, no_key, handle, interrupt_l2, interrupt}

handle-not-down : (k : Keymap) (s : Keyboard) (c : ℕ) → (handle false k s).1 ≢ event key_down c
unfolding handle
handle-not-down k s c h = ground arith

-- No byte after the prefix 0xE0 makes a key-down event, whatever the keymap and the modes: the press
-- of an arrow key is never posted.
pub extra-not-down :
    (s : Keyboard) (code c : ℕ) → s.expect_extra ≡ true → (interrupt code s).1 ≢ event key_down c
unfolding interrupt interrupt_l2
extra-not-down s code c e h = ground (
  arith,
  handle-not-down (get_or s.keymap (134 - 128) no_key) (record s { expect_extra = false }) c,
  handle-not-down (get_or s.keymap (135 - 128) no_key) (record s { expect_extra = false }) c,
  handle-not-down (get_or s.keymap (136 - 128) no_key) (record s { expect_extra = false }) c,
  handle-not-down (get_or s.keymap (137 - 128) no_key) (record s { expect_extra = false }) c,
)
