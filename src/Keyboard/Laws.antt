-- ===== src/Keyboard/Laws.antt =====
-- What `keyboard_interrupt` of `basekernel/kernel/keyboard.c` does to the modes and what it posts.
use stage_os.Base.{
  ℕ, ◌+◌, ◌-◌, ◌<◌, ◌≡◌, ◌≢◌, Bool, true, false, not, ◌&&◌, arith, ◌==◌, if◌then◌else◌, get_or,
}
use stage_os.Keyboard.Rows.{Keymap, shift, alt, ctrl, capslock, numlock}
use stage_os.Keyboard.{
  Keyboard, ignore, event, key_up, key_down, widen, no_key, character, handle, interrupt,
}

-- The row of a scan code below 128.
abbrev row : Keyboard → ℕ → Keymap
row s code = get_or s.keymap code no_key

-- The row belongs to no modifier.
abbrev pub IsPlain : Keymap → Type 0
IsPlain k =
    (k.special ≢ shift)
    × (k.special ≢ alt)
    × (k.special ≢ ctrl)
    × (k.special ≢ capslock)
    × (k.special ≢ numlock)

-- With no prefix byte seen, a code below 0xE0 - 128 is read directly, pressed and released.
interrupt-press :
    (s : Keyboard) (code : ℕ)
    → s.expect_extra ≡ false
    → code < 0x60
    → interrupt code s ≡ handle true (row s code) s
unfolding interrupt
interrupt-press s code e h = ground arith

interrupt-release :
    (s : Keyboard) (code : ℕ)
    → s.expect_extra ≡ false
    → code < 0x60
    → interrupt (code + 128) s ≡ handle false (row s code) s
unfolding interrupt
interrupt-release s code e h =
    let same : code + 128 - 128 ≡ code = omega arith in ground (arith, same)

handle-plain :
    (down : Bool) (k : Keymap) (s : Keyboard)
    → IsPlain k
    → (s.ctrl_mode && s.alt_mode && k.normal == 127) ≡ false
    → handle down k s ≡ (s, event (if down then key_down else key_up) (widen (character s k)))
unfolding handle
handle-plain down k s p n = ground arith

module _ (s : Keyboard) (code : ℕ) (plain_state : s.expect_extra ≡ false)
    (small : code < 0x60) where
  -- Pressing and releasing a key that is no modifier posts a key-down and a key-up event of the same
  -- character and leaves every mode, unless it is Ctrl-Alt-Delete.
  pub press-release :
      IsPlain (row s code)
      → (s.ctrl_mode && s.alt_mode && (row s code).normal == 127) ≡ false
      → (interrupt code s ≡ (s, event key_down (widen (character s (row s code)))))
        × (interrupt (code + 128) s ≡ (s, event key_up (widen (character s (row s code)))))
  press-release p n = (
    rw (interrupt-press s code plain_state small) (handle-plain true (row s code) s p n),
    rw (interrupt-release s code plain_state small) (handle-plain false (row s code) s p n),
  )

  -- Pressing and releasing Caps Lock posts nothing and turns its mode round, and no other.
  pub capslock-toggles :
      (row s code).special ≡ capslock
      → (interrupt code s ≡ (s, ignore))
        × (interrupt (code + 128) s ≡ (record s { capslock_mode = not s.capslock_mode }, ignore))
  unfolding handle
  capslock-toggles e = (
    rw (interrupt-press s code plain_state small, e),
    rw (interrupt-release s code plain_state small, e),
  )

  -- A shift key sets its mode while it is held, and posts nothing.
  pub shift-holds :
      (row s code).special ≡ shift
      → (interrupt code s ≡ (record s { shift_mode = true }, ignore))
        × (interrupt (code + 128) s ≡ (record s { shift_mode = false }, ignore))
  unfolding handle
  shift-holds e = (
    rw (interrupt-press s code plain_state small, e),
    rw (interrupt-release s code plain_state small, e),
  )
