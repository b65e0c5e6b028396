-- ===== src/Strings/Compare.antt =====
-- `strcmp` of `basekernel/kernel/string.c` as an order on texts.
use mathlib.Core.Option
use stage_os.Base.{
  ℕ, ◌<◌, ◌≡◌, ◌≢◌, ◌↔◌, ◌∙◌, refl, ap₂, sym, subst, true, false, some, List, [], ◌∷◌, arith, ◌==◌,
  inl, inr, Bool-cases, ==-ne,
}
use native.Mathlib.Decide.{ℕ_discrete}
use stage_os.Strings.{char_lt, Sign, minus, equal, plus, strcmp}
use stage_os.Strings.Text.{IsText, string}

-- Every byte is a byte.
abbrev pub AllBytes : List ℕ → Type 0
AllBytes [] = Unit {0}
AllBytes (c ∷ t) = (c < 256) × AllBytes t

unfoldable pub opposite : Sign → Sign
opposite minus = plus
opposite equal = equal
opposite plus = minus

-- On strings of bytes, exchanging the two turns the sign of the result round.
pub strcmp-swap :
    (s t : List ℕ) → AllBytes s → AllBytes t → strcmp t s ≡ Option.map opposite (strcmp s t)
unfolding strcmp opposite
strcmp-swap [] [] bs bt = refl
strcmp-swap [] (b ∷ t) bs bt = refl
strcmp-swap (a ∷ s) [] bs bt = refl
strcmp-swap (a ∷ s) (b ∷ t) bs bt = elim (ℕ_discrete a b) [
  | yes e ↦
      let no_lt : char_lt b b ≡ false = ground arith in
      rw (e, no_lt)
        (elim (Bool-cases (b == 0)) [ inl z ↦ rw z | inr nz ↦ rw nz (strcmp-swap s t bs.1 bt.1) ])
  | no ne ↦ elim (Bool-cases (char_lt a b)) [
    | inl lt ↦ let not_gt : char_lt b a ≡ false = ground arith in rw (lt, not_gt)
    | inr not_lt ↦ let gt : char_lt b a ≡ true = ground (arith, bs.0, bt.0) in rw (not_lt, gt)
  ]
]

strcmp-same : (t r r' : List ℕ) → IsText t → strcmp (string t r) (string t r') ≡ some equal
unfolding strcmp
strcmp-same [] r r' h = refl
strcmp-same (c ∷ t) r r' h = ground (arith, strcmp-same t r r' h.1, h.0)

differs : (a b : ℕ) (s t : List ℕ) → a < 256 → b < 256 → a ≢ b → strcmp (a ∷ s) (b ∷ t) ≢ some equal
unfolding strcmp
differs a b s t ha hb ne e = elim (Bool-cases (char_lt a b)) [
  | inl lt ↦ let f = rw lt at e in cc
  | inr not_lt ↦ let gt : char_lt b a ≡ true = ground arith in let f = rw (not_lt, gt) at e in cc
]

strcmp-tail : (a b : ℕ) (s t : List ℕ) → a ≡ b → a ≢ 0 → strcmp (a ∷ s) (b ∷ t) ≡ strcmp s t
unfolding strcmp
strcmp-tail a b s t e nz =
    let no_lt : char_lt a b ≡ false = ground arith in
    let no_gt : char_lt b a ≡ false = ground arith in rw (no_lt, no_gt, ==-ne a 0 nz)

eq_of_strcmp :
    (t u r r' : List ℕ)
    → AllBytes t
    → AllBytes u
    → IsText t
    → IsText u
    → strcmp (string t r) (string u r') ≡ some equal
    → t ≡ u
eq_of_strcmp [] [] r r' bt bu ht hu e = refl
eq_of_strcmp [] (b ∷ u) r r' bt bu ht hu e =
    absurd (differs 0 b r (string u r') (omega arith) bu.0 (λ z. hu.0 (sym z)) e)
eq_of_strcmp (a ∷ t) [] r r' bt bu ht hu e =
    absurd (differs a 0 (string t r) r' bt.0 (omega arith) ht.0 e)
eq_of_strcmp (a ∷ t) (b ∷ u) r r' bt bu ht hu e = elim (ℕ_discrete a b) [
  | yes p ↦ ap₂ ◌∷◌ p (
      eq_of_strcmp t u r r' bt.1 bu.1 ht.1 hu.1
        (sym (strcmp-tail a b (string t r) (string u r') p ht.0) ∙ e))
  | no ne ↦ absurd (differs a b (string t r) (string u r') bt.0 bu.0 ne e)
]

-- `strcmp` of two strings of bytes gives 0 exactly if they hold the same text, whatever stands behind
-- them in memory.
pub strcmp-equal :
    (t u r r' : List ℕ)
    → AllBytes t
    → AllBytes u
    → IsText t
    → IsText u
    → (strcmp (string t r) (string u r') ≡ some equal) ↔ (t ≡ u)
strcmp-equal t u r r' bt bu ht hu = (
  eq_of_strcmp t u r r' bt bu ht hu,
  λ e. subst (λ v. strcmp (string t r) (string v r') ≡ some equal) e (strcmp-same t r r' ht),
)
