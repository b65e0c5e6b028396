-- ===== src/Keyboard/Us.antt =====
-- `keymapus` of `basekernel/kernel/keymap.c`, the QWERTY table of `basekernel/kernel/keymap.us.pc.c`.
use stage_os.Base.{List, [], ◌∷◌}
use stage_os.Keyboard.Rows.{
  Keymap, key, alpha, alt, capslock, ctrl, invalid, numlock, numpad, shift,
}

abbrev pub keymapus : List Keymap
keymapus =
    key invalid invalid invalid 0 0
    ∷ key 27 27 0 0 0
    ∷ key b'1' b'!' b'1' 0 0
    ∷ key b'2' b'@' b'2' 0 0
    ∷ key b'3' b'#' b'3' 0 0
    ∷ key b'4' b'$' b'4' 0 0
    ∷ key b'5' b'%' b'5' 0 0
    ∷ key b'6' b'^' b'6' 0 0
    ∷ key b'7' b'&' b'7' 0 0
    ∷ key b'8' b'*' b'8' 0 0
    ∷ key b'9' b'(' b'9' 0 0
    ∷ key b'0' b')' b'0' 0 0
    ∷ key b'-' b'_' b'-' 0 0
    ∷ key b'=' b'+' b'=' 0 0
    ∷ key 8 8 8 0 0
    ∷ key 9 9 9 0 0
    ∷ key b'q' b'Q' 17 alpha 0
    ∷ key b'w' b'W' 23 alpha 0
    ∷ key b'e' b'E' 5 alpha 0
    ∷ key b'r' b'R' 18 alpha 0
    ∷ key b't' b'T' 20 alpha 0
    ∷ key b'y' b'Y' 25 alpha 0
    ∷ key b'u' b'U' 21 alpha 0
    ∷ key b'i' b'I' 9 alpha 0
    ∷ key b'o' b'O' 15 alpha 0
    ∷ key b'p' b'P' 16 alpha 0
    ∷ key b'[' b'{' b'[' 0 0
    ∷ key b']' b'}' b']' 0 0
    ∷ key 13 13 13 0 0
    ∷ key invalid invalid invalid ctrl 0
    ∷ key b'a' b'A' 1 alpha 0
    ∷ key b's' b'S' 19 alpha 0
    ∷ key b'd' b'D' 4 alpha 0
    ∷ key b'f' b'F' 6 alpha 0
    ∷ key b'g' b'G' 7 alpha 0
    ∷ key b'h' b'H' 8 alpha 0
    ∷ key b'j' b'J' 10 alpha 0
    ∷ key b'k' b'K' 11 alpha 0
    ∷ key b'l' b'L' 12 alpha 0
    ∷ key b';' b':' b';' 0 0
    ∷ key 39 34 39 0 0
    ∷ key b'`' b'~' b'`' 0 0
    ∷ key invalid invalid invalid shift 0
    ∷ key 92 b'|' 92 0 0
    ∷ key b'z' b'Z' 26 alpha 0
    ∷ key b'x' b'X' 24 alpha 0
    ∷ key b'c' b'C' 3 alpha 0
    ∷ key b'v' b'V' 22 alpha 0
    ∷ key b'b' b'B' 2 alpha 0
    ∷ key b'n' b'N' 14 alpha 0
    ∷ key b'm' b'M' 13 alpha 0
    ∷ key b',' b'<' b',' 0 0
    ∷ key b'.' b'>' b'.' 0 0
    ∷ key b'/' b'?' b'/' 0 0
    ∷ key invalid invalid invalid shift 0
    ∷ key b'*' b'*' b'*' 0 0
    ∷ key invalid invalid invalid alt 0
    ∷ key b' ' b' ' b' ' 0 0
    ∷ key invalid invalid invalid capslock 0
    ∷ key invalid invalid invalid 0 0
    ∷ key invalid invalid invalid 0 0
    ∷ key invalid invalid invalid 0 0
    ∷ key invalid invalid invalid 0 0
    ∷ key invalid invalid invalid 0 0
    ∷ key invalid invalid invalid 0 0
    ∷ key invalid invalid invalid 0 0
    ∷ key invalid invalid invalid 0 0
    ∷ key invalid invalid invalid 0 0
    ∷ key invalid invalid invalid 0 0
    ∷ key invalid invalid invalid numlock 0
    ∷ key invalid invalid invalid 0 0
    ∷ key b'7' 130 b'7' numpad 0
    ∷ key b'8' 134 b'8' numpad 0
    ∷ key b'9' 132 b'9' numpad 0
    ∷ key b'-' b'-' b'-' numpad 0
    ∷ key b'4' 136 b'4' numpad 0
    ∷ key b'5' b'5' b'5' numpad 0
    ∷ key b'6' 137 b'6' numpad 0
    ∷ key b'+' b'+' b'+' numpad 0
    ∷ key b'1' 131 b'1' numpad 0
    ∷ key b'2' 135 b'2' numpad 0
    ∷ key b'3' 133 b'3' numpad 0
    ∷ key invalid invalid invalid 0 0
    ∷ key 127 127 127 0 0
    ∷ key 13 13 13 0 0
    ∷ key invalid invalid invalid 0 0
    ∷ key invalid invalid invalid 0 0
    ∷ key invalid invalid invalid 0 0
    ∷ key invalid invalid invalid 0 0
    ∷ key invalid invalid invalid 0 0
    ∷ key invalid invalid invalid 0 0
    ∷ key invalid invalid invalid 0 0
    ∷ key invalid invalid invalid 0 0
    ∷ key invalid invalid invalid 0 0
    ∷ key invalid invalid invalid 0 0
    ∷ key invalid invalid invalid 0 0
    ∷ key invalid invalid invalid 0 0
    ∷ key invalid invalid invalid 0 0
    ∷ key invalid invalid invalid 0 0
    ∷ key invalid invalid invalid 0 0
    ∷ key invalid invalid invalid 0 0
    ∷ key invalid invalid invalid 0 0
    ∷ key invalid invalid invalid 0 0
    ∷ key invalid invalid invalid 0 0
    ∷ key invalid invalid invalid 0 0
    ∷ key invalid invalid invalid 0 0
    ∷ key invalid invalid invalid 0 0
    ∷ key invalid invalid invalid 0 0
    ∷ key invalid invalid invalid 0 0
    ∷ key invalid invalid invalid 0 0
    ∷ key invalid invalid invalid 0 0
    ∷ key invalid invalid invalid 0 0
    ∷ key invalid invalid invalid 0 0
    ∷ key invalid invalid invalid 0 0
    ∷ key invalid invalid invalid 0 0
    ∷ key invalid invalid invalid 0 0
    ∷ key invalid invalid invalid 0 0
    ∷ key invalid invalid invalid 0 0
    ∷ key invalid invalid invalid 0 0
    ∷ key invalid invalid invalid 0 0
    ∷ key invalid invalid invalid 0 0
    ∷ key invalid invalid invalid 0 0
    ∷ key invalid invalid invalid 0 0
    ∷ key invalid invalid invalid 0 0
    ∷ key invalid invalid invalid 0 0
    ∷ key invalid invalid invalid 0 0
    ∷ key invalid invalid invalid 0 0
    ∷ key invalid invalid invalid 0 0
    ∷ []
