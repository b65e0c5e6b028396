-- ===== src/Validation.antt =====
-- The checks of `basekernel/kernel/is_valid.c` on the strings and descriptors that system calls get.
-- Strings are memory from a pointer on, and `none` is an access beyond it, as in Strings.
pub mod Chars
mod Tests
use stage_os.Base.{
  ℕ, zero, suc, ◌+◌, ◌*◌, ◌%◌, Bool, true, false, not, ◌&&◌, ◌||◌, Option, none, some, List, [],
  ◌∷◌, ◌==◌, ltb, leb, if◌then◌else◌, get_or, set, take, drop, length, replicate,
}
use stage_os.Strings.{strlen, strcpy, char_lt}

-- The test of one character in `is_valid_path`, whose least character is 45, and in `is_valid_tag`,
-- whose least is 48. `char` is signed.
pub valid_char : (least c : ℕ) → Bool
valid_char least c = not (
    char_lt c least
    || (char_lt 57 c && char_lt c 65)
    || (char_lt 90 c && char_lt c 95)
    || (char_lt 95 c && char_lt c 97)
    || char_lt 122 c)

-- The loop over the first `n` characters
pub valid_chars : (least : ℕ) → List ℕ → ℕ → Bool
unfolding valid_char
valid_chars least s zero = true
valid_chars least [] (suc n) = false
valid_chars least (c ∷ s) (suc n) =
    let later = valid_chars least s n in if valid_char least c then later else false

-- `is_valid_path`
pub is_valid_path : List ℕ → Option Bool
unfolding valid_chars
is_valid_path s = elim (strlen s) [ none ↦ none | some n ↦ some (valid_chars 45 s n) ]

-- `is_valid_tag`
pub is_valid_tag : List ℕ → Option Bool
unfolding valid_chars
is_valid_tag s = elim (strlen s) [ none ↦ none | some n ↦ some (valid_chars 48 s n) ]

-- The index of the first colon of the first `length` characters, or `length`
pub path_index : List ℕ → ℕ → ℕ
path_index s zero = 0
path_index [] (suc n) = 0
path_index (c ∷ s) (suc n) = let later = path_index s n in if c == 58 then 0 else suc later

-- `a && b` of two tests, where the second one only counts after the first
abbrev pub both : Option Bool → Option Bool → Option Bool
both none b = none
both (some false) b = some false
both (some true) b = b

-- `is_valid_location`: `mutable_test` has `length + 1` bytes, which `strcpy` overwrites.
pub is_valid_location : List ℕ → Option Bool
unfolding is_valid_path is_valid_tag path_index
is_valid_location s = elim (strlen s) [
  | none ↦ none
  | some n ↦ elim (strcpy (replicate (n + 1) 0) s) [
    | none ↦ none
    | some test ↦
        let at = path_index s n in
        let cut = set test at 0 in both (is_valid_tag cut) (is_valid_path (drop (at + 1) cut))
  ]
]
