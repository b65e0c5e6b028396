-- ===== src/Printf/Hex.antt =====
-- The number that `printf_puthex` of `basekernel/kernel/printf.c` writes.
use stage_os.Base.{
  ℕ, suc, ◌+◌, ◌-◌, ◌*◌, ◌/◌, ◌%◌, ◌^◌, ◌<◌, ◌≡◌, refl, ap, ◌∙◌, List, [], ◌∷◌, ◌==◌, ltb, true,
  if◌then◌else◌, all_below, all_below-at, arith,
}
use stage_os.Printf.{hex_digit, put_hex_digits, printf_puthex}

-- The value of a digit, and of a list of digits behind a value
abbrev pub digit_value : ℕ → ℕ
digit_value c = if ltb c b'a' then c - b'0' else c - b'a' + 10

unfoldable pub hex_value : ℕ → List ℕ → ℕ
hex_value v [] = v
hex_value v (c ∷ s) = hex_value (16 * v + digit_value c) s

digit_table : all_below 16 (λ d. digit_value (hex_digit d) == d) ≡ true
unfolding all_below
digit_table = refl

digit_value-hex_digit : (d : ℕ) → d < 16 → digit_value (hex_digit d) ≡ d
digit_value-hex_digit d h =
    let t = all_below-at 16 (λ d. digit_value (hex_digit d) == d) d digit_table h in ground arith

hex_step :
    (v n i : ℕ)
    → hex_value v (put_hex_digits (suc n) i)
      ≡ hex_value (16 * v + i / 2 ^ (4 * n) % 16) (put_hex_digits n i)
unfolding hex_value put_hex_digits
hex_step v n i =
    ap (λ d. hex_value (16 * v + d) (put_hex_digits n i))
      (digit_value-hex_digit (i / 2 ^ (4 * n) % 16) (omega arith))

hex_end : (v i : ℕ) → hex_value v (put_hex_digits 0 i) ≡ v
unfolding hex_value put_hex_digits
hex_end v i = refl

-- The eight digits that `printf_puthex` writes for a 32-bit number stand for this number.
pub hex_value-printf_puthex : (i : ℕ) → i < 2 ^ 32 → hex_value 0 (printf_puthex i) ≡ i
unfolding printf_puthex
hex_value-printf_puthex i h =
    hex_step 0 7 i
    ∙ hex_step _ 6 i
    ∙ hex_step _ 5 i
    ∙ hex_step _ 4 i
    ∙ hex_step _ 3 i
    ∙ hex_step _ 2 i
    ∙ hex_step _ 1 i
    ∙ hex_step _ 0 i
    ∙ hex_end _ i
    ∙ omega arith
