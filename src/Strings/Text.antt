-- ===== src/Strings/Text.antt =====
-- The functions of `basekernel/kernel/string.c` on the text that a string holds.
use stage_os.Base.{
  ℕ, suc, ◌+◌, ◌≤◌, ◌<◌, ◌≡◌, ◌≢◌, ◌∙◌, refl, none, some, List, [], ◌∷◌, ◌++◌, arith, length, drop,
  ==-ne,
}
use stage_os.Strings.{strlen, strcpy, strcat}

-- No byte of a text is zero.
abbrev pub IsText : List ℕ → Type 0
IsText [] = Unit {0}
IsText (c ∷ t) = (c ≢ 0) × IsText t

-- Memory that holds the text `t`, its zero byte, and `rest` behind it.
abbrev pub string : List ℕ → List ℕ → List ℕ
string [] rest = 0 ∷ rest
string (c ∷ t) rest = c ∷ string t rest

-- `strlen` is the length of the text.
pub strlen-string : (t rest : List ℕ) → IsText t → strlen (string t rest) ≡ some (length t)
unfolding strlen
strlen-string [] rest h = refl
strlen-string (c ∷ t) rest h = rw (==-ne c 0 h.0, strlen-string t rest h.1)

-- `strcpy` into a place that is long enough writes the text and its zero byte, and no other byte.
pub strcpy-string :
    (d t rest : List ℕ)
    → IsText t
    → length t < length d
    → strcpy d (string t rest) ≡ some (string t (drop (length t + 1) d))
unfolding strcpy
strcpy-string [] t rest h lt = absurd (omega arith)
strcpy-string (x ∷ d) [] rest h lt = refl
strcpy-string (x ∷ d) (c ∷ t) rest h lt =
    let e : suc (length t) + 1 ≡ suc (length t + 1) = omega arith in
    rw (==-ne c 0 h.0, strcpy-string d t rest h.1 (omega arith), e)

-- A copy into a place that is too short runs past its end.
pub strcpy_short :
    (d t rest : List ℕ) → IsText t → length d ≤ length t → strcpy d (string t rest) ≡ none
unfolding strcpy
strcpy_short [] t rest h le = refl
strcpy_short (x ∷ d) [] rest h le = absurd (omega arith)
strcpy_short (x ∷ d) (c ∷ t) rest h le = rw (==-ne c 0 h.0, strcpy_short d t rest h.1 (omega arith))

-- `strcat` appends the second text to the first, if there is room.
pub strcat-string :
    (t u space rest : List ℕ)
    → IsText t
    → IsText u
    → length u ≤ length space
    → strcat (string t space) (string u rest) ≡ some (string (t ++ u) (drop (length u) space))
unfolding strcat
strcat-string [] u space rest ht hu le =
    let e : length u + 1 ≡ suc (length u) = omega arith in
    strcpy-string (0 ∷ space) u rest hu (omega arith) ∙ rw e
strcat-string (c ∷ t) u space rest ht hu le =
    rw (==-ne c 0 ht.0, strcat-string t u space rest ht.1 hu le)
