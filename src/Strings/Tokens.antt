-- ===== src/Strings/Tokens.antt =====
-- `strtok` of `basekernel/kernel/string.c`: the words of a text between delimiters. The text that is
-- left for the next call, which the code keeps in a static pointer, is passed along.
use stage_os.Base.{
  ℕ, zero, suc, Bool, true, false, Option, none, some, List, [], ◌∷◌, ◌==◌, if◌then◌else◌,
}

-- A character is one of the delimiters.
abbrev pub is_delim : List ℕ → ℕ → Bool
is_delim [] c = false
is_delim (d ∷ ds) c = if c == d then true else is_delim ds c

-- The first loop: past the delimiters
unfoldable pub skip_delims : List ℕ → List ℕ → List ℕ
skip_delims delim [] = []
skip_delims delim (c ∷ s) =
    let later = skip_delims delim s in if is_delim delim c then later else c ∷ s

-- The second loop: the word, and what stands behind the delimiter that ends it
unfoldable pub word : List ℕ → List ℕ → List ℕ × List ℕ
word delim [] = ([], [])
word delim (c ∷ s) =
    let later = word delim s in if is_delim delim c then ([], s) else (c ∷ later.0, later.1)

-- `strtok`: the word and the text that is left, or `none` where no word is left
unfoldable pub strtok : (delim s : List ℕ) → Option (List ℕ × List ℕ)
unfolding skip_delims word
strtok delim s = elim (skip_delims delim s) [ [] ↦ none | c ∷ t ↦ some (word delim (c ∷ t)) ]

-- A loop of calls, on fuel
unfoldable pub tokens : (fuel : ℕ) → (delim s : List ℕ) → List (List ℕ)
unfolding strtok
tokens zero delim s = []
tokens (suc fuel) delim s = elim (strtok delim s) [
  | none ↦ []
  | some r ↦ r.0 ∷ tokens fuel delim r.1
]
