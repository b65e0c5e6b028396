-- ===== src/Keyboard/Tests.antt =====
-- Keys of `basekernel/kernel/keyboard.c` pressed at boot.
use stage_os.Base.{◌≡◌, ◌≢◌, refl, true, false}
use stage_os.Keyboard.Us.{keymapus}
use stage_os.Keyboard.{Keyboard, event, key_up, key_down, interrupt}
use stage_os.Keyboard.Arrows.{extra-not-down}

abbrev started : Keyboard
started = record {
  shift_mode = false;
  alt_mode = false;
  ctrl_mode = false;
  capslock_mode = false;
  numlock_mode = false;
  expect_extra = false;
  keymap = keymapus;
}

abbrev prefixed : Keyboard
prefixed = record started { expect_extra = true }

-- The up arrow posts the release of the key 5.
up_arrow : interrupt 0x48 prefixed ≡ (started, event key_up b'5')
unfolding interrupt
up_arrow = refl

shifted_q : (interrupt 0x10 (record started { shift_mode = true })).1 ≡ event key_down b'Q'
unfolding interrupt
shifted_q = refl

extra-not-down_example : (interrupt 0x48 prefixed).1 ≢ event key_down b'5'
extra-not-down_example = extra-not-down prefixed 0x48 b'5' refl
