-- ===== src/Printf/Tests.antt =====
-- What `basekernel/kernel/printf.c` puts on the console, and the theorems at numbers.
use stage_os.Base.{◌-◌, ◌^◌, ◌≡◌, refl, none, some, [], ◌∷◌}
use stage_os.Printf.{factor, put_digits, printf_putuint, printf_putint, printf, convert, uint}

puts_negative : printf_putint (2 ^ 32 - 42) ≡ b'-' ∷ b'4' ∷ b'2' ∷ []
unfolding printf_putint printf_putuint factor put_digits
puts_negative = refl

-- The least `int`
puts_least : printf_putint (2 ^ 31) ≡ b'-' ∷ b'0' ∷ []
unfolding printf_putint printf_putuint factor put_digits
puts_least = refl

puts_largest :
    printf_putuint (2 ^ 32 - 1)
    ≡ b'4' ∷ b'2' ∷ b'9' ∷ b'4' ∷ b'9' ∷ b'6' ∷ b'7' ∷ b'2' ∷ b'9' ∷ b'5' ∷ []
unfolding printf_putuint factor put_digits
puts_largest = refl

formats :
    printf (b'a' ∷ b'=' ∷ b'%' ∷ b'u' ∷ b'%' ∷ b'%' ∷ []) (uint 7 ∷ [])
    ≡ some (b'a' ∷ b'=' ∷ b'7' ∷ b'%' ∷ [])
unfolding printf convert printf_putuint factor put_digits
formats = refl

lacks_an_argument : printf (b'%' ∷ b's' ∷ []) [] ≡ none
unfolding printf
lacks_an_argument = refl
