-- ===== src/Printf.antt =====
-- `basekernel/kernel/printf.c`: the characters that `printf` puts on the console. A number is a 32-bit
-- word, negative from 2 ^ 31 on where it is an `int`.
pub mod Decimal
pub mod Hex
mod Tests
use stage_os.Base.{
  ℕ, zero, suc, ◌+◌, ◌-◌, ◌*◌, ◌/◌, ◌%◌, ◌^◌, Bool, true, false, Option, none, some, List, [], ◌∷◌,
  ◌++◌, ◌==◌, ltb, leb, if◌then◌else◌,
}

-- `printf_puthexdigit`
abbrev pub hex_digit : ℕ → ℕ
hex_digit i = if ltb i 10 then b'0' + i else b'a' + i - 10

-- `printf_puthex`: the loop over `n` digits, the last one first in `n`
unfoldable pub put_hex_digits : (n i : ℕ) → List ℕ
put_hex_digits zero i = []
put_hex_digits (suc n) i = hex_digit (i / 2 ^ (4 * n) % 16) ∷ put_hex_digits n i

unfoldable pub printf_puthex : ℕ → List ℕ
unfolding put_hex_digits
printf_puthex i = put_hex_digits 8 i

-- The first loop of `printf_putuint`: the factor of the first digit. A 32-bit number has ten digits at
-- most, so nine rounds are enough, and the factor fits an `int`.
unfoldable pub factor : (rounds u f : ℕ) → ℕ
factor zero u f = f
factor (suc rounds) u f =
    let later = factor rounds u (f * 10) in if leb 10 (u / f) then later else f

-- Its second loop, of ten rounds at most
unfoldable pub put_digits : (rounds u f : ℕ) → List ℕ
put_digits zero u f = []
put_digits (suc rounds) u f =
    let d : ℕ = u / f in
    let later = put_digits rounds (u - d * f) (f / 10) in
    if f == 0 then [] else ((b'0' + d) % 256) ∷ later

-- `printf_putuint`
unfoldable pub printf_putuint : ℕ → List ℕ
printf_putuint u = put_digits 10 u (factor 9 u 1)

-- `printf_putint` on the positive value that is left: 2 ^ 31 is negative still, so the factor stays 1 and
-- the number is taken for the only digit.
unfoldable pub put_magnitude : ℕ → List ℕ
unfolding printf_putuint
put_magnitude i = if leb (2 ^ 31) i then ((b'0' + i) % 256) ∷ [] else printf_putuint i

-- `printf_putint`
unfoldable pub printf_putint : ℕ → List ℕ
unfolding put_magnitude
printf_putint i =
    if leb (2 ^ 31) i then b'-' ∷ put_magnitude ((2 ^ 32 - i) % 2 ^ 32) else put_magnitude i

-- The arguments of `printf`
pub data Argument : Type 0 where
  int uint char : ℕ → Argument
  string : List ℕ → Argument

-- What a conversion puts, or `none` for an argument of another kind
unfoldable pub convert : (letter : ℕ) → Argument → Option (List ℕ)
unfolding printf_putint printf_putuint printf_puthex
convert c (int i) = if c == b'd' then some (printf_putint i) else none
convert c (uint u) =
    if c == b'u'
    then some (printf_putuint u)
    else if c == b'x'
    then some (printf_puthex u)
    else none
convert c (char u) = if c == b'c' then some ((u % 256) ∷ []) else none
convert c (string s) = if c == b's' then some s else none

-- The letters that take an argument
abbrev pub takes_argument : ℕ → Bool
takes_argument c =
    if c == b'd'
    then true
    else if c == b'u'
    then true
    else if c == b'x'
    then true
    else if c == b's'
    then true
    else c == b'c'

abbrev append : List ℕ → Option (List ℕ) → Option (List ℕ)
append l none = none
append l (some r) = some (l ++ r)

-- The loop of `printf` over the format, without its zero byte: what is put on the console. `none` is an
-- argument that is missing or is of another kind.
unfoldable pub printf : List ℕ → List Argument → Option (List ℕ)
unfolding convert
printf [] args = some []
printf (c ∷ []) args = if c == b'%' then some [] else some (c ∷ [])
printf (c ∷ d ∷ s) [] =
    let plain = append (c ∷ []) (printf (d ∷ s) []) in
    let other = append (d ∷ []) (printf s []) in
    if c == b'%' then (if takes_argument d then none else other) else plain
printf (c ∷ d ∷ s) (a ∷ args) =
    let plain = append (c ∷ []) (printf (d ∷ s) (a ∷ args)) in
    let other = append (d ∷ []) (printf s (a ∷ args)) in
    let next = printf s args in
    let converted : Option (List ℕ) = elim (convert d a) [ none ↦ none | some l ↦ append l next ] in
    if c == b'%' then (if takes_argument d then converted else other) else plain
