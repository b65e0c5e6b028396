-- ===== src/Strings.antt =====
-- The string functions of `basekernel/kernel/string.c`. Memory from a pointer on is the list of its
-- bytes, as far as it may be read or written; `none` is an access beyond that.
pub mod Tokens
pub mod Text
pub mod Compare
pub mod Digits
mod Tests
use mathlib.Core.Option
use stage_os.Base.{
  ℕ, zero, suc, ◌+◌, ◌-◌, ◌*◌, ◌/◌, ◌%◌, ◌^◌, Bool, true, false, ◌&&◌, ◌||◌, Option, none, some,
  List, [], ◌∷◌, ◌++◌, ◌==◌, ltb, leb, if◌then◌else◌, get_elem?, set, length,
}

-- `strlen`
unfoldable pub strlen : List ℕ → Option ℕ
strlen [] = none
strlen (c ∷ s) = if c == 0 then some 0 else Option.map suc (strlen s)

-- `strcpy`, into the bytes from `d` on
pub strcpy : List ℕ → List ℕ → Option (List ℕ)
strcpy [] s = none
strcpy (x ∷ d) [] = none
strcpy (x ∷ d) (c ∷ s) = if c == 0 then some (0 ∷ d) else Option.map (λ r. c ∷ r) (strcpy d s)

-- `strncpy`: the zero byte stands behind up to `length` bytes.
pub strncpy : List ℕ → List ℕ → ℕ → Option (List ℕ)
strncpy [] s n = none
strncpy (x ∷ d) [] n = none
strncpy (x ∷ d) (c ∷ s) zero = some (0 ∷ d)
strncpy (x ∷ d) (c ∷ s) (suc n) =
    if c == 0 then some (0 ∷ d) else Option.map (λ r. c ∷ r) (strncpy d s n)

-- `strcat`: `strcpy(d + strlen(d), s)`
pub strcat : List ℕ → List ℕ → Option (List ℕ)
unfolding strcpy
strcat [] s = none
strcat (x ∷ d) s = if x == 0 then strcpy (x ∷ d) s else Option.map (λ r. x ∷ r) (strcat d s)

-- The order of two values of type `char`, which is signed.
abbrev pub char_lt : ℕ → ℕ → Bool
char_lt a b = ltb ((a + 128) % 256) ((b + 128) % 256)

-- The results -1, 0 and 1 of a comparison
pub data Sign : Type 0 where
  minus equal plus : Sign

-- `strcmp`
pub strcmp : List ℕ → List ℕ → Option Sign
strcmp (a ∷ s) (b ∷ t) =
    if char_lt a b
    then some minus
    else if char_lt b a
    then some plus
    else if a == 0
    then some equal
    else strcmp s t
strcmp [] t = none
strcmp (a ∷ s) [] = none

-- `strncmp`
unfoldable pub strncmp : List ℕ → List ℕ → ℕ → Option Sign
strncmp s t zero = some equal
strncmp (a ∷ s) (b ∷ t) (suc n) =
    if char_lt a b
    then some minus
    else if char_lt b a
    then some plus
    else if a == 0
    then some equal
    else strncmp s t n
strncmp [] t (suc n) = none
strncmp (a ∷ s) [] (suc n) = none

-- `strchr`: how far the character is, or the null pointer
pub strchr : List ℕ → ℕ → Option (Option ℕ)
strchr [] ch = none
strchr (c ∷ s) ch =
    if c == 0
    then some none
    else if c == ch
    then some (some 0)
    else Option.map (Option.map suc) (strchr s ch)

-- `strtoupper` and `strtolower`
pub strtoupper : List ℕ → Option (List ℕ)
strtoupper [] = none
strtoupper (c ∷ s) =
    if c == 0
    then some (c ∷ s)
    else Option.map (λ r. (if leb b'a' c && leb c b'z' then c - 32 else c) ∷ r) (strtoupper s)

pub strtolower : List ℕ → Option (List ℕ)
strtolower [] = none
strtolower (c ∷ s) =
    if c == 0
    then some (c ∷ s)
    else Option.map (λ r. (if leb b'A' c && leb c b'Z' then c + 32 else c) ∷ r) (strtolower s)

-- The exchange in `strrev`; an index outside is a fault.
pub exchange : List ℕ → ℕ → ℕ → Option (List ℕ)
exchange s i j = elim (get_elem? s i) [
  | none ↦ none
  | some a ↦ elim (get_elem? s j) [ none ↦ none | some b ↦ some (set (set s i b) j a) ]
]

-- The loop of `strrev` on its two `unsigned` positions. A round brings them two closer, so `end` rounds
-- are enough.
pub strrev_loop : (rounds start end : ℕ) → List ℕ → Option (List ℕ)
unfolding exchange
strrev_loop zero start end s = some s
strrev_loop (suc rounds) start end s =
    let later : Option (List ℕ) = elim (exchange s start end) [
      | none ↦ none
      | some s' ↦ strrev_loop rounds (start + 1) (end - 1) s'
    ] in
    if ltb start end then later else some s

-- `strrev`
pub strrev : List ℕ → Option (List ℕ)
unfolding strlen strrev_loop
strrev s = elim (strlen s) [
  | none ↦ none
  | some n ↦ let end = (n + 2 ^ 32 - 1) % 2 ^ 32 in strrev_loop (length s) 0 end s
]

-- The loop of `str2int` on its value, a 32-bit word: the bytes that are read, and `none` inside for a
-- string that is no number, where the function returns 0.
pub str2int_from : ℕ → List ℕ → Option (Option ℕ)
str2int_from val [] = none
str2int_from val (c ∷ s) =
    if c == 0
    then some (some val)
    else if char_lt b'9' c || char_lt c b'0'
    then some none
    else str2int_from ((val * 10 % 2 ^ 32 + (c - b'0')) % 2 ^ 32) s

-- `str2int`
pub str2int : List ℕ → Option (Option ℕ)
str2int s = str2int_from 0 s

-- `memset` of `length` bytes
pub memset : List ℕ → ℕ → ℕ → Option (List ℕ)
memset d value zero = some d
memset [] value (suc n) = none
memset (x ∷ d) value (suc n) = Option.map (λ r. value ∷ r) (memset d value n)

-- `memcpy` of `length` bytes between places that do not overlap
pub memcpy : List ℕ → List ℕ → ℕ → Option (List ℕ)
memcpy d s zero = some d
memcpy [] s (suc n) = none
memcpy (x ∷ d) [] (suc n) = none
memcpy (x ∷ d) (c ∷ s) (suc n) = Option.map (λ r. c ∷ r) (memcpy d s n)

-- The first loop of `uint_to_string`, on 32-bit words: the largest factor. Dividing by 0 is a fault.
-- 10 ^ 32 is 0 in 32 bits, so 33 rounds always end it.
unfoldable pub scale : ℕ → ℕ → ℕ → Option ℕ
scale zero u f = none
scale (suc rounds) u f =
    let g : ℕ = f * 10 % 2 ^ 32 in
    let later = scale rounds u g in if g == 0 then none else if ltb 0 (u / g) then later else some f

-- Its second loop: one character a round. The factor is below 2 ^ 32, so ten rounds end it.
unfoldable pub emit : ℕ → ℕ → ℕ → List ℕ
emit zero u f = []
emit (suc rounds) u f =
    let later = emit rounds (u % f) (f / 10) in
    if f == 0 then [] else ((b'0' + u / f) % 256) ∷ later

-- `uint_to_string`: what is written from `s` on
unfoldable pub uint_to_string : ℕ → Option (List ℕ)
uint_to_string u = Option.map (λ f. emit 10 u f ++ (0 ∷ [])) (scale 33 u 1)
