-- ===== src/DiskFs/Lookup.antt =====
-- What the search of a directory in `basekernel/kernel/diskfs.c` finds.
use stage_os.Base.{
  ℕ, zero, suc, ◌+◌, ◌*◌, ◌<◌, ◌≤◌, ◌≡◌, ◌≢◌, ◌⊎◌, ◌↔◌, inl, inr, refl, ap₂, Bool, true, false,
  ◌&&◌, not, none, some, List, [], ◌∷◌, ◌==◌, length, Bool-cases, ==-ne, ==-refl, arith,
}
use stage_os.Strings.{strncmp, char_lt}
use stage_os.Strings.Text.{IsText}
use stage_os.Strings.Compare.{AllBytes}
use native.Mathlib.Decide.{ℕ_discrete}
use stage_os.DiskFs.Layout.{Block, get_bytes}
use stage_os.DiskFs.Directory.{name_equals, find_item, item_type, item_name, is_equal}

strncmp-same : (a : List ℕ) → is_equal (strncmp a a (length a)) ≡ true
unfolding strncmp
strncmp-same [] = refl
strncmp-same (c ∷ a) =
    let no_lt : char_lt c c ≡ false = ground arith in
    rw (no_lt, strncmp)
      (elim (Bool-cases (c == 0)) [ inl z ↦ rw z refl | inr nz ↦ rw nz (strncmp-same a) ])

strncmp-differs :
    (c d : ℕ) (a b : List ℕ) (n : ℕ)
    → c < 256
    → d < 256
    → c ≢ d
    → is_equal (strncmp (c ∷ a) (d ∷ b) (suc n)) ≢ true
unfolding strncmp
strncmp-differs c d a b n hc hd ne h = elim (Bool-cases (char_lt c d)) [
  | inl lt ↦ let bad = rw (lt, strncmp) at h in cc
  | inr not_lt ↦
      let gt : char_lt d c ≡ true = ground arith in let bad = rw (not_lt, gt, strncmp) at h in cc
]

strncmp-only :
    (a b : List ℕ)
    → IsText a
    → AllBytes a
    → AllBytes b
    → length a ≡ length b
    → is_equal (strncmp a b (length a)) ≡ true
    → a ≡ b
unfolding strncmp
strncmp-only [] [] t x y l h = refl
strncmp-only [] (c ∷ b) t x y l h = absurd (omega arith)
strncmp-only (c ∷ a) [] t x y l h = absurd (omega arith)
strncmp-only (c ∷ a) (d ∷ b) t x y l h = elim (ℕ_discrete c d) [
  | yes e ↦
      let no_lt : char_lt c d ≡ false = ground arith in
      let no_gt : char_lt d c ≡ false = ground arith in
      let rest =
        strncmp-only a b t.1 x.1 y.1 (omega arith)
          (rw (no_lt, no_gt, ==-ne c 0 t.0, strncmp) at h) in
      ap₂ (λ z zs. z ∷ zs) e rest
  | no ne ↦ absurd (strncmp-differs c d a b (length a) x.0 y.0 ne h)
]

-- `diskfs_name_equals` tells exactly whether two names of bytes are the same, where the first has no
-- zero byte.
pub name_equals_lem :
    (a b : List ℕ) → IsText a → AllBytes a → AllBytes b → (name_equals a b ≡ true) ↔ (a ≡ b)
unfolding name_equals
name_equals_lem a b t x y = (
  λ h. elim (Bool-cases (length a == length b)) [
    | inl e ↦ strncmp-only a b t x y (ground arith) (rw (e, name_equals) at h)
    | inr e ↦ let bad : false ≡ true = rw (e, name_equals) at h in cc
  ],
  λ e. rw (← e, name_equals, ==-refl (length a)) (strncmp-same a),
)

get_bytes-AllBytes : (b : Block) (at n : ℕ) → ((p : ℕ) → b p < 256) → AllBytes (get_bytes b at n)
unfolding get_bytes
get_bytes-AllBytes b at zero h = tt
get_bytes-AllBytes b at (suc n) h = (h at, get_bytes-AllBytes b (at + 1) n h)

item_name-AllBytes : (b : Block) (j : ℕ) → ((p : ℕ) → b p < 256) → AllBytes (item_name b j)
unfolding item_name
item_name-AllBytes b j h = get_bytes-AllBytes b (32 * j + 6) (b (32 * j + 5)) h

&&-true : (a b : Bool) → (a && b) ≡ true → (a ≡ true) × (b ≡ true)
&&-true true b h = (refl, h)
&&-true false b h = cc

-- An item in use with a name
abbrev pub Has : List ℕ → Block → ℕ → Type 0
Has name b j = (item_type b j ≢ 0) × (name ≡ item_name b j)

-- The test of the loop
item_test :
    (name : List ℕ) (b : Block) (j : ℕ)
    → IsText name
    → AllBytes name
    → ((p : ℕ) → b p < 256)
    → ((not (item_type b j == 0) && name_equals name (item_name b j)) ≡ true) ↔ Has name b j
item_test name b j t x y = (
  λ h.
      let parts = &&-true (not (item_type b j == 0)) (name_equals name (item_name b j)) h in
      (ground arith, same.0 parts.1),
  λ h. rw (==-ne (item_type b j) 0 h.0, same.1 h.1) refl,
)
  where
    same : (name_equals name (item_name b j) ≡ true) ↔ (name ≡ item_name b j)
    same = name_equals_lem name (item_name b j) t x (item_name-AllBytes b j y)

-- The inner loop of `diskfs_dirent_lookup` finds the first of its items that is in use and has the
-- name, or finds nothing and no item has it. The name is a text, and the block holds bytes.
pub find_item-first :
    (name : List ℕ) (b : Block) (n j : ℕ)
    → IsText name
    → AllBytes name
    → ((p : ℕ) → b p < 256)
    → (find_item name b n j ≡ none) × ((m : ℕ) → j ≤ m → m < j + n → ¬ Has name b m)
      ⊎ ((r : ℕ) × (find_item name b n j ≡ some r)
          × (j ≤ r)
          × (r < j + n)
          × Has name b r
          × ((m : ℕ) → j ≤ m → m < r → ¬ Has name b m))
unfolding find_item
find_item-first name b zero j t x y = inl (refl, λ m a c h. absurd (omega arith))
find_item-first name b (suc n) j t x y =
    elim (Bool-cases (not (item_type b j == 0) && name_equals name (item_name b j))) [
      | inl e ↦ inr (
        j,
        rw (e, find_item) refl,
        omega arith,
        omega arith,
        (item_test name b j t x y).0 e,
        λ m a c h. absurd (omega arith),
      )
      | inr e ↦ elim (find_item-first name b n (j + 1) t x y) [
        | inl (nothing, other) ↦ inl (
          rw (e, find_item) nothing,
          λ m a c. elim (ℕ_discrete m j) [
            | yes here ↦ rw here (unlike e)
            | no ne ↦ other m (omega arith) (omega arith)
          ],
        )
        | inr (r, found, a, c, has, other) ↦ inr (
          r,
          rw (e, find_item) found,
          omega arith,
          omega arith,
          has,
          λ m a c. elim (ℕ_discrete m j) [
            | yes here ↦ rw here (unlike e)
            | no ne ↦ other m (omega arith) c
          ],
        )
      ]
    ]
  where
    unlike : (not (item_type b j == 0) && name_equals name (item_name b j)) ≡ false → ¬ Has name b j
    unlike e h = let f = (item_test name b j t x y).1 h in cc
