-- ===== src/Validation/Chars.antt =====
-- What the strings that `basekernel/kernel/is_valid.c` accepts consist of.
use stage_os.Base.{
  ℕ, zero, suc, ◌+◌, ◌<◌, ◌≡◌, ◌≢◌, ◌∙◌, ap, refl, Bool, true, false, ◌&&◌, ◌||◌, none, some, List,
  [], ◌∷◌, ◌++◌, ◌==◌, leb, if◌then◌else◌, set, drop, length, replicate, arith, ==-ne,
  length-replicate,
}
use stage_os.Strings.{strlen, strcpy}
use stage_os.Strings.Text.{IsText, string, strlen-string, strcpy-string}
use stage_os.Strings.Compare.{AllBytes}
use stage_os.Validation.{
  valid_char, valid_chars, both, is_valid_path, is_valid_tag, path_index, is_valid_location,
}

-- A digit, a letter or an underscore
abbrev pub word_char : ℕ → Bool
word_char c =
    (leb b'0' c && leb c b'9')
    || (leb b'a' c && leb c b'z')
    || (leb b'A' c && leb c b'Z')
    || c == b'_'

-- One of these, or `-`, `.` or `/`
abbrev pub path_char : ℕ → Bool
path_char c = c == b'-' || c == b'.' || c == b'/' || word_char c

abbrev pub all : (ℕ → Bool) → List ℕ → Bool
all p [] = true
all p (c ∷ t) = p c && all p t

valid_char-path : (c : ℕ) → c < 256 → valid_char 45 c ≡ path_char c
unfolding valid_char
valid_char-path c h = ground arith

valid_char-tag : (c : ℕ) → c < 256 → valid_char 48 c ≡ word_char c
unfolding valid_char
valid_char-tag c h = ground arith

if_and : (a b : Bool) → (if a then b else false) ≡ (a && b)
if_and true b = refl
if_and false b = refl

valid_chars-string :
    (least : ℕ) (p : ℕ → Bool) (t rest : List ℕ)
    → ((c : ℕ) → c < 256 → valid_char least c ≡ p c)
    → AllBytes t
    → valid_chars least (string t rest) (length t) ≡ all p t
unfolding valid_chars
valid_chars-string least p [] rest h b = refl
valid_chars-string least p (c ∷ t) rest h b =
    rw (h c b.0, valid_chars-string least p t rest h b.1) (if_and (p c) (all p t))

-- A path is valid exactly if it consists of letters, digits, `-`, `.`, `/` and `_`.
pub is_valid_path-string :
    (t rest : List ℕ)
    → IsText t
    → AllBytes t
    → is_valid_path (string t rest) ≡ some (all path_char t)
unfolding is_valid_path
is_valid_path-string t rest h b = rw (
  strlen-string t rest h,
  valid_chars-string 45 path_char t rest valid_char-path b,
  is_valid_path,
)

-- A tag is valid exactly if it consists of letters, digits and `_`.
pub is_valid_tag-string :
    (t rest : List ℕ)
    → IsText t
    → AllBytes t
    → is_valid_tag (string t rest) ≡ some (all word_char t)
unfolding is_valid_tag
is_valid_tag-string t rest h b =
    rw (
      strlen-string t rest h,
      valid_chars-string 48 word_char t rest valid_char-tag b,
      is_valid_tag,
    )

-- The text has no colon.
abbrev pub NoColon : List ℕ → Type 0
NoColon [] = Unit {0}
NoColon (c ∷ t) = (c ≢ 58) × NoColon t

path_index-colon :
    (t u rest : List ℕ)
    → NoColon t
    → path_index (string (t ++ (58 ∷ u)) rest) (length (t ++ (58 ∷ u))) ≡ length t
unfolding path_index
path_index-colon [] u rest h = refl
path_index-colon (c ∷ t) u rest h = rw (==-ne c 58 h.0, path_index-colon t u rest h.1)

path_index-none : (t rest : List ℕ) → NoColon t → path_index (string t rest) (length t) ≡ length t
unfolding path_index
path_index-none [] rest h = refl
path_index-none (c ∷ t) rest h = rw (==-ne c 58 h.0, path_index-none t rest h.1)

set-colon :
    (t u rest : List ℕ) → set (string (t ++ (58 ∷ u)) rest) (length t) 0 ≡ string t (string u rest)
set-colon [] u rest = refl
set-colon (c ∷ t) u rest = ap (λ r. c ∷ r) (set-colon t u rest)

set-end : (t rest : List ℕ) → set (string t rest) (length t) 0 ≡ string t rest
set-end [] rest = refl
set-end (c ∷ t) rest = ap (λ r. c ∷ r) (set-end t rest)

drop-string : (t rest : List ℕ) → drop (suc (length t)) (string t rest) ≡ rest
drop-string [] rest = refl
drop-string (c ∷ t) rest = drop-string t rest

drop-replicate : (n : ℕ) → drop {A = ℕ} n (replicate n 0) ≡ []
drop-replicate zero = refl
drop-replicate (suc n) = drop-replicate n

copied :
    (t rest : List ℕ)
    → IsText t
    → strcpy (replicate (length t + 1) 0) (string t rest) ≡ some (string t [])
copied t rest h =
    let d = replicate (length t + 1) 0 in
    strcpy-string d t rest h (omega (arith, length-replicate {A = ℕ} (length t + 1) 0))
    ∙ ap (λ r. some (string t r)) (drop-replicate (length t + 1))

IsText-append : (t u : List ℕ) → IsText t → IsText u → IsText (t ++ (58 ∷ u))
IsText-append [] u ht hu = (omega arith, hu)
IsText-append (c ∷ t) u ht hu = (ht.0, IsText-append t u ht.1 hu)

then_path : (a b : Bool) → both (some a) (some b) ≡ some (a && b)
then_path true b = refl
then_path false b = refl

no_string : is_valid_path [] ≡ none
unfolding is_valid_path strlen
no_string = refl

then_nothing : (a : Bool) → both (some a) none ≡ (if a then none else some false)
then_nothing true = refl
then_nothing false = refl

-- A tag and a path with a colon between them are a valid location exactly if both are valid.
pub is_valid_location-colon :
    (tag path rest : List ℕ)
    → NoColon tag
    → IsText tag
    → IsText path
    → AllBytes tag
    → AllBytes path
    → is_valid_location (string (tag ++ (58 ∷ path)) rest)
      ≡ some (all word_char tag && all path_char path)
unfolding is_valid_location
is_valid_location-colon tag path rest nc ht hp bt bp =
    let whole = IsText-append tag path ht hp in
    let one : length tag + 1 ≡ suc (length tag) = omega arith in
    rw
      (
        strlen-string (tag ++ (58 ∷ path)) rest whole,
        copied (tag ++ (58 ∷ path)) rest whole,
        path_index-colon tag path rest nc,
        set-colon tag path [],
        is_valid_tag-string tag (string path []) ht bt,
        one,
        drop-string tag (string path []),
        is_valid_path-string path [] hp bp,
        is_valid_location,
      )
      (then_path (all word_char tag) (all path_char path))

-- For a valid tag with no colon the check goes on to read a path behind the end of its copy.
pub is_valid_location-tag :
    (t rest : List ℕ)
    → NoColon t
    → IsText t
    → AllBytes t
    → is_valid_location (string t rest) ≡ (if all word_char t then none else some false)
unfolding is_valid_location
is_valid_location-tag t rest nc h b =
    let one : length t + 1 ≡ suc (length t) = omega arith in
    rw
      (
        strlen-string t rest h,
        copied t rest h,
        path_index-none t rest nc,
        set-end t [],
        is_valid_tag-string t [] h b,
        one,
        drop-string t [],
        no_string,
        is_valid_location,
      )
      (then_nothing (all word_char t))
