-- ===== src/Strings/Tests.antt =====
-- The functions of `basekernel/kernel/string.c` on short strings.
use stage_os.Base.{◌≡◌, ◌∷◌, refl, List, [], ℕ, none, some, arith}
use stage_os.Strings.{strlen, strrev, strrev_loop, exchange, str2int, uint_to_string, scale, emit}
use stage_os.Strings.Text.{IsText, string}
use stage_os.Strings.Digits.{str2int-uint_to_string}

abbrev ab : List ℕ
ab = b'a' ∷ b'b' ∷ []

abbrev c : List ℕ
c = b'c' ∷ []

ab-IsText : IsText ab
ab-IsText = (omega arith, (omega arith, tt))

c-IsText : IsText c
c-IsText = (omega arith, tt)

-- The factor of the largest 32-bit number wraps round to 0.
largest_faults : uint_to_string 4294967295 ≡ none
unfolding uint_to_string scale
largest_faults = refl

prints_zero : uint_to_string 0 ≡ some (b'0' ∷ 0 ∷ [])
unfolding uint_to_string scale emit
prints_zero = refl

-- The empty string is reversed from position 2 ^ 32 - 1 on.
empty_faults : strrev (0 ∷ 7 ∷ []) ≡ none
unfolding strrev strlen strrev_loop exchange
empty_faults = refl

reverses : strrev (string ab []) ≡ some (b'b' ∷ b'a' ∷ 0 ∷ [])
unfolding strrev strlen strrev_loop exchange
reverses = refl

str2int-uint_to_string_example :
    (s : List ℕ) × (uint_to_string 1999 ≡ some s) × (str2int s ≡ some (some 1999))
str2int-uint_to_string_example = str2int-uint_to_string 1999 (omega arith)
