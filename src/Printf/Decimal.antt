-- ===== src/Printf/Decimal.antt =====
-- `printf_putuint` of `basekernel/kernel/printf.c` and `uint_to_string` of `basekernel/kernel/string.c`
-- write the same digits.
use mathlib.Core.Option
use stage_os.Base.{
  ℕ, zero, suc, ◌+◌, ◌-◌, ◌*◌, ◌/◌, ◌%◌, ◌^◌, ◌≤◌, ◌<◌, ◌≡◌, ◌∙◌, refl, ap, sym, true, false, some,
  [], ◌∷◌, ◌++◌, arith, leb, ◌==◌, Bool-cases, inl, inr,
}
use native.Mathlib.Decide.{dec_lt}
use stage_os.Strings.{scale, emit, uint_to_string}
use stage_os.Strings.Digits.{
  pow10, pow10-pos, pow10-le, pow10_nine, pow10-zero, pow10-suc, scale-stop, scale-step, limit,
}
use stage_os.Printf.{factor, put_digits, printf_putuint}

left_over : (u f : ℕ) → 0 < f → u - u / f * f ≡ u % f
left_over u f h = grind arith

one_digit : (u f : ℕ) → u < 10 * f → u / f < 10
one_digit u f h = grind arith

two_digits : (u f : ℕ) → 0 < f → 10 * f ≤ u → 10 ≤ u / f
two_digits u f pos h = grind arith

put_digits-emit : (rounds u f : ℕ) → put_digits rounds u f ≡ emit rounds u f
unfolding put_digits emit
put_digits-emit zero u f = refl
put_digits-emit (suc rounds) u f = elim (Bool-cases (f == 0)) [
  | inl e ↦ rw (e, put_digits, emit) refl
  | inr e ↦
      let rest : u - u / f * f ≡ u % f = left_over u f (ground arith) in
      rw (e, rest, put_digits, emit)
        (ap (λ l. ((48 + u / f) % 256) ∷ l) (put_digits-emit rounds (u % f) (f / 10)))
]

factor-stop : (rounds u f : ℕ) → u < 10 * f → factor rounds u f ≡ f
unfolding factor
factor-stop zero u f h = refl
factor-stop (suc rounds) u f h =
    let q = one_digit u f h in let small : leb 10 (u / f) ≡ false = ground arith in rw small refl

factor-step :
    (rounds u f : ℕ) → 0 < f → 10 * f ≤ u → factor (suc rounds) u f ≡ factor rounds u (f * 10)
unfolding factor
factor-step rounds u f pos h =
    let q = two_digits u f pos h in
    let large : leb 10 (u / f) ≡ true = ground arith in rw large refl

-- Both loops find one factor.
scale-factor :
    (r rounds k u : ℕ)
    → k + r ≡ 9
    → r < rounds
    → u < limit
    → scale rounds u (pow10 k) ≡ some (factor r u (pow10 k))
scale-factor r zero k u e h lt = absurd (omega arith)
scale-factor zero (suc rounds) k u e h lt =
    let nine : k ≡ 9 = omega arith in
    let p : pow10 k ≡ 1000000000 = ap pow10 nine ∙ pow10_nine in
    scale-stop rounds u (pow10 k) limit (omega (arith, p)) (omega arith) lt
    ∙ ap some (sym (factor-stop 0 u (pow10 k) (omega (arith, p))))
scale-factor (suc r) (suc rounds) k u e h lt =
    let g : pow10 k * 10 % 2 ^ 32 ≡ pow10 (suc k) =
      omega (arith, pow10-suc k, pow10-le (suc k) (omega arith)) in
    elim (dec_lt u (pow10 (suc k))) [
      | yes p ↦
          scale-stop rounds u (pow10 k) (pow10 (suc k)) g (pow10-pos (suc k)) p
          ∙ ap some (sym (factor-stop (suc r) u (pow10 k) (omega (arith, pow10-suc k))))
      | no p ↦
          let next : pow10 k * 10 ≡ pow10 (suc k) = omega (arith, pow10-suc k) in
          scale-step rounds u (pow10 k) (pow10 (suc k)) g (pow10-pos (suc k)) (omega arith)
          ∙ scale-factor r rounds (suc k) u (omega arith) (omega arith) lt
          ∙ ap some (
              sym (
                factor-step r u (pow10 k) (pow10-pos k) (omega (arith, pow10-suc k))
                ∙ ap (factor r u) next))
    ]

-- Below 1410065408, `uint_to_string` writes the digits that `printf_putuint` puts on the console, and a
-- zero byte.
pub uint_to_string-printf_putuint :
    (u : ℕ) → u < limit → uint_to_string u ≡ some (printf_putuint u ++ 0 ∷ [])
unfolding uint_to_string printf_putuint
uint_to_string-printf_putuint u lt =
    ap (Option.map (λ f. emit 10 u f ++ 0 ∷ [])) (
      ap (scale 33 u) (sym pow10-zero)
      ∙ scale-factor 9 33 0 u (omega arith) (omega arith) lt
      ∙ ap (λ f. some (factor 9 u f)) pow10-zero)
    ∙ ap (λ l. some (l ++ 0 ∷ [])) (sym (put_digits-emit 10 u (factor 9 u 1)))
