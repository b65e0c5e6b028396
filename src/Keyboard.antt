-- ===== src/Keyboard.antt =====
-- The keyboard driver, `basekernel/kernel/keyboard.c`: scan codes of set 1 become key events on the
-- root event queue.
pub mod Rows
pub mod Us
pub mod Fr
pub mod Laws
pub mod Arrows
pub mod Layouts
mod Tests
use stage_os.Base.{
  ℕ, ◌+◌, ◌-◌, ◌%◌, Bool, true, false, not, ◌&&◌, Option, none, some, List, ◌==◌, ltb, leb,
  if◌then◌else◌, get_or,
}
use stage_os.EventQueue.{EventQueue, post}
use Rows.{Keymap, key, shift, alt, ctrl, capslock, numlock, alpha, numpad}
use Us.{keymapus}
use Fr.{keymapfr}

-- The statics of keyboard.c, and the table `keymap` that the shell can replace.
pub record Keyboard : Type 0 where
  pub shift_mode : Bool
  pub alt_mode : Bool
  pub ctrl_mode : Bool
  pub capslock_mode : Bool
  pub numlock_mode : Bool
  pub expect_extra : Bool
  pub keymap : List Keymap

-- At boot all modes are off, and the table is the American one.
pub boot : Keyboard
boot = record {
  shift_mode = false;
  alt_mode = false;
  ctrl_mode = false;
  capslock_mode = false;
  numlock_mode = false;
  expect_extra = false;
  keymap = keymapus;
}

-- What an interrupt does beside the modes: nothing, a restart, or a key event.
pub data Action : Type 0 where
  ignore : Action
  reboot : Action
  event : (type code : ℕ) → Action

abbrev pub key_up : ℕ
key_up = 16

abbrev pub key_down : ℕ
key_down = 32

-- A `char` as a `uint16_t`: C extends its sign.
abbrev pub widen : ℕ → ℕ
widen c = if ltb c 128 then c else c + 0xFF00

-- The row past the end of a table, which a 7-bit code does not reach.
abbrev pub no_key : Keymap
no_key = key 0 0 0 0 0

-- The character that `keyboard_interrupt_l2` posts for a key that is no modifier.
pub character : Keyboard → Keymap → ℕ
character s k =
    if s.capslock_mode
    then (if k.special == alpha && not s.shift_mode then k.shifted else k.normal)
    else if s.numlock_mode
    then (if k.special == numpad && not s.shift_mode then k.shifted else k.normal)
    else if s.shift_mode
    then k.shifted
    else if s.ctrl_mode
    then k.ctrled
    else k.normal

-- `keyboard_interrupt_l2` once `code` is split: `down` is its direction, `k` its row.
pub handle : (down : Bool) → Keymap → Keyboard → Keyboard × Action
unfolding character
handle down k s =
    if k.special == shift
    then (record s { shift_mode = down }, ignore)
    else if k.special == alt
    then (record s { alt_mode = down }, ignore)
    else if k.special == ctrl
    then (record s { ctrl_mode = down }, ignore)
    else if k.special == capslock
    then (if down then (s, ignore) else (record s { capslock_mode = not s.capslock_mode }, ignore))
    else if k.special == numlock
    then (if down then (s, ignore) else (record s { numlock_mode = not s.numlock_mode }, ignore))
    else if down && s.ctrl_mode && s.alt_mode && k.normal == 127
    then (s, reboot)
    else (s, event (if down then key_down else key_up) (widen (character s k)))

-- `keyboard_interrupt_l2`; `code` is a byte.
pub interrupt_l2 : ℕ → Keyboard → Keyboard × Action
unfolding handle
interrupt_l2 code s =
    if leb 128 code
    then handle false (get_or s.keymap (code - 128) no_key) s
    else handle true (get_or s.keymap code no_key) s

-- The arrow keys after `KEYCODE_EXTRA`: the scan code, and the key that it stands for.
abbrev pub extra_key : ℕ → Option ℕ
extra_key code =
    if code == 0x48
    then some 134
    else if code == 0x42
    then some 135
    else if code == 0x4B
    then some 136
    else if code == 0x4D
    then some 137
    else none

-- `keyboard_interrupt`; `code` is the byte that the port gives.
pub interrupt : ℕ → Keyboard → Keyboard × Action
unfolding interrupt_l2
interrupt code s =
    if code == 0xE0
    then (record s { expect_extra = true }, ignore)
    else if s.expect_extra
    then elim (extra_key code) [
      | none ↦ (record s { expect_extra = false }, ignore)
      | some c ↦ interrupt_l2 c (record s { expect_extra = false })
    ]
    else interrupt_l2 code s

-- `event_queue_post_root`: a key event goes to the root queue.
pub deliver : Action → EventQueue → EventQueue × Option ℕ
deliver (event t c) q = post (record { type = t; code = c; x = 0; y = 0 }) q
deliver ignore q = (q, none)
deliver reboot q = (q, none)

-- The command `kb_layout` of `basekernel/kernel/kshell.c` with an argument that names a table.
pub data Layout : Type 0 where
  us fr other : Layout

pub kb_layout : Layout → Keyboard → Keyboard
kb_layout us s = record s { keymap = keymapus }
kb_layout fr s = record s { keymap = keymapfr }
kb_layout other s = s
