-- ===== src/Strings/Digits.antt =====
-- `uint_to_string` and `str2int` of `basekernel/kernel/string.c`: a number survives printing and
-- reading.
use mathlib.Core.Option
use stage_os.Base.{
  ℕ, zero, suc, ◌+◌, ◌-◌, ◌*◌, ◌/◌, ◌%◌, ◌^◌, ◌≤◌, ◌<◌, ◌≡◌, ◌∙◌, refl, ap, sym, true, false,
  Option, some, List, [], ◌∷◌, ◌++◌, arith, leb, ==-ne, all_below, all_below-at, lt→ltb,
}
use native.Mathlib.Nat.{div-add-mod', le-mul_of_pos_right}
use native.Mathlib.Decide.{dec_lt}
use stage_os.Strings.{char_lt, str2int_from, str2int, scale, emit, uint_to_string}

unfoldable pub pow10 : ℕ → ℕ
pow10 zero = 1
pow10 (suc k) = 10 * pow10 k

pub pow10-pos : (k : ℕ) → 0 < pow10 k
unfolding pow10
pow10-pos zero = omega arith
pow10-pos (suc k) = omega (arith, pow10-pos k)

pow10_table : all_below 10 (λ k. leb (pow10 k) 1000000000) ≡ true
unfolding all_below pow10
pow10_table = refl

pub pow10-le : (k : ℕ) → k < 10 → pow10 k ≤ 1000000000
pow10-le k h = ground (arith, all_below-at 10 (λ k. leb (pow10 k) 1000000000) k pow10_table h)

-- Below this number, which is 10 ^ 10 in 32 bits, the factor does not wrap.
abbrev pub limit : ℕ
limit = 1410065408

record Scaled (u : ℕ) (r : Option ℕ) : Type 0 where
  j : ℕ
  small : j < 10
  found : r ≡ some (pow10 j)
  enough : u < 10 * pow10 j

div-pos : (u g : ℕ) → 0 < g → g ≤ u → 0 < u / g
div-pos u g h le = grind arith

div-zero_of_lt : (u g : ℕ) → u < g → u / g ≡ 0
div-zero_of_lt u g h = grind arith

pub scale-stop :
    (rounds u f g : ℕ) → f * 10 % 2 ^ 32 ≡ g → 0 < g → u < g → scale (suc rounds) u f ≡ some f
unfolding scale
scale-stop rounds u f g e h lt = rw (e, ==-ne g 0 (omega arith), div-zero_of_lt u g lt)

pub scale-step :
    (rounds u f g : ℕ)
    → f * 10 % 2 ^ 32 ≡ g
    → 0 < g
    → g ≤ u
    → scale (suc rounds) u f ≡ scale rounds u g
unfolding scale
scale-step rounds u f g e h le =
    rw (e, ==-ne g 0 (omega arith), lt→ltb 0 (u / g) (div-pos u g h le))

pub pow10_nine : pow10 9 ≡ 1000000000
unfolding pow10
pow10_nine = refl

pub pow10-zero : pow10 0 ≡ 1
unfolding pow10
pow10-zero = refl

pub pow10-suc : (k : ℕ) → pow10 (suc k) ≡ 10 * pow10 k
unfolding pow10
pow10-suc k = refl

scale-Scaled :
    (r rounds k u : ℕ) → k + r ≡ 9 → r < rounds → u < limit → Scaled u (scale rounds u (pow10 k))
scale-Scaled r zero k u e h lt = absurd (omega arith)
scale-Scaled zero (suc rounds) k u e h lt =
    let nine : k ≡ 9 = omega arith in
    let p : pow10 k ≡ 1000000000 = ap pow10 nine ∙ pow10_nine in
    record {
      j = k;
      small = omega arith;
      found = scale-stop rounds u (pow10 k) limit (omega (arith, p)) (omega arith) lt;
      enough = omega (arith, p);
    }
scale-Scaled (suc r) (suc rounds) k u e h lt =
    let g : pow10 k * 10 % 2 ^ 32 ≡ pow10 (suc k) =
      omega (arith, pow10-suc k, pow10-le (suc k) (omega arith)) in
    elim (dec_lt u (pow10 (suc k))) [
      | yes p ↦ record {
        j = k;
        small = omega arith;
        found = scale-stop rounds u (pow10 k) (pow10 (suc k)) g (pow10-pos (suc k)) p;
        enough = omega (arith, pow10-suc k);
      }
      | no p ↦
          rw (scale-step rounds u (pow10 k) (pow10 (suc k)) g (pow10-pos (suc k)) (omega arith))
            (scale-Scaled r rounds (suc k) u (omega arith) (omega arith) lt)
    ]

div-lt_ten : (u f : ℕ) → 0 < f → u < 10 * f → u / f < 10
div-lt_ten u f h lt = grind arith

-- One round of the printing loop.
emit-suc :
    (rounds u f : ℕ)
    → 0 < f
    → u < 10 * f
    → emit (suc rounds) u f ≡ (48 + u / f) ∷ emit rounds (u % f) (f / 10)
unfolding emit
emit-suc rounds u f h lt =
    let c : (48 + u / f) % 256 ≡ 48 + u / f = omega (arith, div-lt_ten u f h lt) in
    rw (==-ne f 0 (omega arith), c)

emit-zero : (rounds u : ℕ) → emit rounds u 0 ≡ []
unfolding emit
emit-zero zero u = refl
emit-zero (suc rounds) u = refl

-- One round of the reading loop.
read-digit :
    (val d : ℕ) (s : List ℕ)
    → d < 10
    → val * 10 + d < 2 ^ 32
    → str2int_from val ((48 + d) ∷ s) ≡ str2int_from (val * 10 + d) s
unfolding str2int_from
read-digit val d s hd h =
    let above : char_lt b'9' (48 + d) ≡ false = ground arith in
    let below : char_lt (48 + d) b'0' ≡ false = ground arith in
    let next : (val * 10 % 2 ^ 32 + (48 + d - b'0')) % 2 ^ 32 ≡ val * 10 + d = omega arith in
    rw (==-ne (48 + d) 0 (omega arith), above, below, next)

read-end : (v : ℕ) → str2int_from v (0 ∷ []) ≡ some (some v)
unfolding str2int_from
read-end v = refl

read-emit :
    (rounds j val u : ℕ)
    → j < rounds
    → u < 10 * pow10 j
    → val * pow10 (suc j) + u < 2 ^ 32
    → str2int_from val (emit rounds u (pow10 j) ++ (0 ∷ [])) ≡ some (some (val * pow10 (suc j) + u))
read-emit zero j val u h lt bound = absurd (omega arith)
read-emit (suc rounds) zero val u h lt bound =
    let one = pow10-suc 0 in
    let v : val * pow10 1 ≡ val * 10 = ap (λ p. val * p) (one ∙ ap (λ p. 10 * p) pow10-zero) in
    let e : val * 10 + u / 1 ≡ val * pow10 1 + u = omega (arith, v) in
    rw
      (
        pow10-zero,
        emit-suc rounds u 1 (omega arith) (omega (arith, pow10-zero)),
        emit-zero rounds (u % 1),
      )
      (read-digit val (u / 1) (0 ∷ []) (omega (arith, pow10-zero)) (omega (arith, v))
        ∙ read-end (val * 10 + u / 1)
        ∙ ap (λ w. some (some w)) e)
read-emit (suc rounds) (suc j) val u h lt bound =
    let f = pow10 (suc j) in
    let fj : f ≡ 10 * pow10 j = pow10-suc j in
    let fs : val * pow10 (suc (suc j)) ≡ val * (10 * f) = ap (λ p. val * p) (pow10-suc (suc j)) in
    let pos = pow10-pos (suc j) in
    let split : u / f * f + u % f ≡ u = div-add-mod' u f in
    let total : (val * 10 + u / f) * f + u % f ≡ val * pow10 (suc (suc j)) + u =
      omega (arith, fs, split) in
    let part : val * 10 + u / f ≤ (val * 10 + u / f) * f =
      le-mul_of_pos_right (val * 10 + u / f) pos in
    let down : f / 10 ≡ pow10 j = omega (arith, fj) in
    let rem : u % f < f = grind (arith, pos) in
    rw (emit-suc rounds u f pos lt, down)
      (read-digit val (u / f) (emit rounds (u % f) (pow10 j) ++ (0 ∷ [])) (div-lt_ten u f pos lt)
          (omega (arith, part, total, bound))
        ∙ read-emit rounds j (val * 10 + u / f) (u % f) (omega arith) (omega (arith, rem, fj))
            (omega (arith, total, bound))
        ∙ ap (λ w. some (some w)) total)

-- `str2int` reads what `uint_to_string` prints for every number below 1410065408, which is 10 ^ 10 in
-- 32 bits: the printing ends, and the value read is the number.
pub str2int-uint_to_string :
    (u : ℕ) → u < limit → (s : List ℕ) × (uint_to_string u ≡ some s) × (str2int s ≡ some (some u))
unfolding uint_to_string str2int
str2int-uint_to_string u lt =
    let d = scale-Scaled 9 33 0 u refl (omega arith) lt in
    (
      emit 10 u (pow10 d.j) ++ (0 ∷ []),
      ap (Option.map (λ f. emit 10 u f ++ (0 ∷ []))) (ap (scale 33 u) (sym pow10-zero) ∙ d.found),
      read-emit 10 d.j 0 u d.small d.enough (omega (arith, lt))
          ∙ ap (λ w. some (some w)) (omega arith),
    )
