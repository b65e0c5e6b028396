-- ===== src/Keyboard/Fr.antt =====
-- `keymapfr` of `basekernel/kernel/keymap.c`, the AZERTY table of `basekernel/kernel/keymap.fr.pc.c`. An
-- accented letter is two bytes in the source, and a `char` keeps the last of them.
use stage_os.Base.{List, [], ◌∷◌}
use stage_os.Keyboard.Rows.{
  Keymap, key, alpha, alt, capslock, ctrl, invalid, numlock, numpad, shift,
}

abbrev pub keymapfr : List Keymap
keymapfr =
    key invalid invalid invalid 0 0
    ∷ key 27 27 0 0 0
    ∷ key b'&' b'1' b'&' 0 0
    ∷ key 169 b'2' 169 0 b'~'
    ∷ key 34 b'3' 34 0 b'#'
    ∷ key 39 b'4' 39 0 b'{'
    ∷ key b'(' b'5' b'(' 0 b'['
    ∷ key b'-' b'6' b'-' 0 b'|'
    ∷ key 168 b'7' 168 0 b'`'
    ∷ key b'_' b'8' b'_' 0 92
    ∷ key 167 b'9' 167 0 b'^'
    ∷ key 160 b'0' 160 0 b'@'
    ∷ key b')' 176 b')' 0 b']'
    ∷ key b'=' b'+' b'=' 0 b'}'
    ∷ key 8 8 8 0 0
    ∷ key 9 9 9 0 0
    ∷ key b'a' b'A' 17 alpha 0
    ∷ key b'z' b'Z' 23 alpha 0
    ∷ key b'e' b'E' 5 alpha 0
    ∷ key b'r' b'R' 18 alpha 0
    ∷ key b't' b'T' 20 alpha 0
    ∷ key b'y' b'Y' 25 alpha 0
    ∷ key b'u' b'U' 21 alpha 0
    ∷ key b'i' b'I' 9 alpha 0
    ∷ key b'o' b'O' 15 alpha 0
    ∷ key b'p' b'P' 16 alpha 0
    ∷ key b'^' 168 b'^' 0 0
    ∷ key b'$' 163 b'$' 0 0
    ∷ key 13 13 13 0 0
    ∷ key invalid invalid invalid ctrl 0
    ∷ key b'q' b'Q' 1 alpha 0
    ∷ key b's' b'S' 19 alpha 0
    ∷ key b'd' b'D' 4 alpha 0
    ∷ key b'f' b'F' 6 alpha 0
    ∷ key b'g' b'G' 7 alpha 0
    ∷ key b'h' b'H' 8 alpha 0
    ∷ key b'j' b'J' 10 alpha 0
    ∷ key b'k' b'K' 11 alpha 0
    ∷ key b'l' b'L' 12 alpha 0
    ∷ key b'm' b'M' 13 alpha 0
    ∷ key 185 b'%' 185 0 0
    ∷ key b'*' 181 b'*' 0 0
    ∷ key invalid invalid invalid shift 0
    ∷ key b'*' 181 b'*' 0 0
    ∷ key b'w' b'W' 26 alpha 0
    ∷ key b'x' b'X' 24 alpha 0
    ∷ key b'c' b'C' 3 alpha 0
    ∷ key b'v' b'V' 22 alpha 0
    ∷ key b'b' b'B' 2 alpha 0
    ∷ key b'n' b'N' 14 alpha 0
    ∷ key b',' b'?' b',' 0 0
    ∷ key b';' b'.' b';' 0 0
    ∷ key b':' b'/' b':' 0 0
    ∷ key b'!' 167 b'!' 0 0
    ∷ key invalid invalid invalid shift 0
    ∷ key b'*' b'*' b'*' 0 0
    ∷ key invalid invalid invalid alt 0
    ∷ key b' ' b' ' b' ' 0 0
    ∷ key invalid invalid invalid capslock 0
    ∷ key invalid invalid invalid 0 0
    ∷ key invalid invalid invalid 0 0
    ∷ key invalid invalid invalid 0 0
    ∷ key invalid invalid invalid 0 0
    ∷ key invalid invalid invalid 0 0
    ∷ key invalid invalid invalid 0 0
    ∷ key invalid invalid invalid 0 0
    ∷ key invalid invalid invalid 0 0
    ∷ key invalid invalid invalid 0 0
    ∷ key invalid invalid invalid 0 0
    ∷ key invalid invalid invalid numlock 0
    ∷ key invalid invalid invalid 0 0
    ∷ key b'7' 130 b'7' numpad 0
    ∷ key b'8' 134 b'8' numpad 0
    ∷ key b'9' 132 b'9' numpad 0
    ∷ key b'-' b'-' b'-' numpad 0
    ∷ key b'4' 136 b'4' numpad 0
    ∷ key b'5' b'5' b'5' numpad 0
    ∷ key b'6' 137 b'6' numpad 0
    ∷ key b'+' b'+' b'+' numpad 0
    ∷ key b'1' 131 b'1' numpad 0
    ∷ key b'2' 135 b'2' numpad 0
    ∷ key b'3' 133 b'3' numpad 0
    ∷ key invalid invalid invalid 0 0
    ∷ key 127 127 127 0 0
    ∷ key 13 13 13 0 0
    ∷ key invalid invalid invalid 0 0
    ∷ key invalid invalid invalid 0 0
    ∷ key invalid invalid invalid 0 0
    ∷ key invalid invalid invalid 0 0
    ∷ key invalid invalid invalid 0 0
    ∷ key invalid invalid invalid 0 0
    ∷ key invalid invalid invalid 0 0
    ∷ key invalid invalid invalid 0 0
    ∷ key invalid invalid invalid 0 0
    ∷ key invalid invalid invalid 0 0
    ∷ key invalid invalid invalid 0 0
    ∷ key invalid invalid invalid 0 0
    ∷ key invalid invalid invalid 0 0
    ∷ key invalid invalid invalid 0 0
    ∷ key invalid invalid invalid 0 0
    ∷ key invalid invalid invalid 0 0
    ∷ key invalid invalid invalid 0 0
    ∷ key invalid invalid invalid 0 0
    ∷ key invalid invalid invalid 0 0
    ∷ key invalid invalid invalid 0 0
    ∷ key invalid invalid invalid 0 0
    ∷ key invalid invalid invalid 0 0
    ∷ key invalid invalid invalid 0 0
    ∷ key invalid invalid invalid 0 0
    ∷ key invalid invalid invalid 0 0
    ∷ key invalid invalid invalid 0 0
    ∷ key invalid invalid invalid 0 0
    ∷ key invalid invalid invalid 0 0
    ∷ key invalid invalid invalid 0 0
    ∷ key invalid invalid invalid 0 0
    ∷ key invalid invalid invalid 0 0
    ∷ key invalid invalid invalid 0 0
    ∷ key invalid invalid invalid 0 0
    ∷ key invalid invalid invalid 0 0
    ∷ key invalid invalid invalid 0 0
    ∷ key invalid invalid invalid 0 0
    ∷ key invalid invalid invalid 0 0
    ∷ key invalid invalid invalid 0 0
    ∷ key invalid invalid invalid 0 0
    ∷ key invalid invalid invalid 0 0
    ∷ key invalid invalid invalid 0 0
    ∷ key invalid invalid invalid 0 0
    ∷ key invalid invalid invalid 0 0
    ∷ []
