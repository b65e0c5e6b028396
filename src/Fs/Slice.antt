-- ===== src/Fs/Slice.antt =====
-- Bytes of a file as a function of their place, and lists of them, for `basekernel/kernel/fs.c`.
use stage_os.Base.{
  ℕ, zero, suc, ◌+◌, ◌-◌, ◌<◌, ◌≤◌, ◌≡◌, refl, ap, ap₂, ◌∙◌, List, [], ◌∷◌, ◌++◌, ltb, leb,
  if◌then◌else◌, length, take, drop, get_or, ◌&&◌, arith,
}
use stage_os.Fs.{patch}

-- `n` bytes from place `at` on
abbrev pub slice : (ℕ → ℕ) → (at n : ℕ) → List ℕ
slice c at zero = []
slice c at (suc n) = c at ∷ slice c (at + 1) n

pub length-slice : (c : ℕ → ℕ) (at n : ℕ) → length (slice c at n) ≡ n
length-slice c at zero = refl
length-slice c at (suc n) = ap suc (length-slice c (at + 1) n)

pub take-slice : (c : ℕ → ℕ) (at m n : ℕ) → n ≤ m → take n (slice c at m) ≡ slice c at n
take-slice c at m zero h = refl
take-slice c at zero (suc n) h = absurd (omega arith)
take-slice c at (suc m) (suc n) h = ap (λ l. c at ∷ l) (take-slice c (at + 1) m n (omega arith))

pub drop-slice : (c : ℕ → ℕ) (at m n : ℕ) → n ≤ m → drop n (slice c at m) ≡ slice c (at + n) (m - n)
drop-slice c at m zero h = ap₂ (λ p k. slice c p k) (omega arith) (omega arith)
drop-slice c at zero (suc n) h = absurd (omega arith)
drop-slice c at (suc m) (suc n) h =
    let place : at + 1 + n ≡ at + suc n = omega arith in
    let rest : m - n ≡ suc m - suc n = omega arith in
    rw (← place, ← rest) (drop-slice c (at + 1) m n (omega arith))

pub slice-append :
    (c : ℕ → ℕ) (at m n : ℕ) → slice c at m ++ slice c (at + m) n ≡ slice c at (m + n)
slice-append c at zero n = ap₂ (λ p k. slice c p k) (omega arith) (omega arith)
slice-append c at (suc m) n =
    ap (λ p. slice c at (suc m) ++ slice c p n) shift
    ∙ ap (λ l. c at ∷ l) (slice-append c (at + 1) m n)
    ∙ ap (slice c at) total
  where
    shift : at + suc m ≡ at + 1 + m
    shift = omega arith

    total : suc (m + n) ≡ suc m + n
    total = omega arith

pub get_or-slice : (c : ℕ → ℕ) (at n i : ℕ) → i < n → get_or (slice c at n) i 0 ≡ c (at + i)
get_or-slice c at zero i h = absurd (omega arith)
get_or-slice c at (suc n) zero h = ap c (omega arith)
get_or-slice c at (suc n) (suc i) h = get_or-slice c (at + 1) n i (omega arith) ∙ ap c (omega arith)

pub length-patch : (t : List ℕ) (at : ℕ) (s : List ℕ) → length (patch t at s) ≡ length t
unfolding patch
length-patch [] at s = refl
length-patch (x ∷ t) zero [] = refl
length-patch (x ∷ t) zero (c ∷ s) = ap suc (length-patch t zero s)
length-patch (x ∷ t) (suc at) s = ap suc (length-patch t at s)

pub get_or-patch :
    (t : List ℕ) (at : ℕ) (s : List ℕ) (i : ℕ)
    → at + length s ≤ length t
    → get_or (patch t at s) i 0
      ≡ (if leb at i && ltb i (at + length s) then get_or s (i - at) 0 else get_or t i 0)
unfolding patch
get_or-patch [] at [] i h = ground arith
get_or-patch [] at (c ∷ s) i h = absurd (omega arith)
get_or-patch (x ∷ t) zero [] i h = ground arith
get_or-patch (x ∷ t) zero (c ∷ s) zero h = ground arith
get_or-patch (x ∷ t) zero (c ∷ s) (suc i) h = ground (arith, get_or-patch t zero s i)
get_or-patch (x ∷ t) (suc at) s zero h = ground arith
get_or-patch (x ∷ t) (suc at) s (suc i) h = ground (arith, get_or-patch t at s i)

pub get_or-take : (s : List ℕ) (n i : ℕ) → i < n → get_or (take n s) i 0 ≡ get_or s i 0
get_or-take [] zero i h = refl
get_or-take [] (suc n) i h = refl
get_or-take (x ∷ s) zero i h = absurd (omega arith)
get_or-take (x ∷ s) (suc n) zero h = refl
get_or-take (x ∷ s) (suc n) (suc i) h = get_or-take s n i (omega arith)

pub length-take : (s : List ℕ) (n : ℕ) → n ≤ length s → length (take n s) ≡ n
length-take s zero h = refl
length-take [] (suc n) h = absurd (omega arith)
length-take (x ∷ s) (suc n) h = ap suc (length-take s n (omega arith))

pub get_or-drop : (s : List ℕ) (n i : ℕ) → get_or (drop n s) i 0 ≡ get_or s (n + i) 0
get_or-drop s zero i = ap (λ j. get_or s j 0) (omega arith)
get_or-drop [] (suc n) i = refl
get_or-drop (x ∷ s) (suc n) i =
    get_or-drop s n i ∙ (let e : suc n + i ≡ suc (n + i) = omega arith in rw e refl)

pub length-drop : (s : List ℕ) (n : ℕ) → length (drop n s) ≡ length s - n
length-drop s zero = omega arith
length-drop [] (suc n) = omega arith
length-drop (x ∷ s) (suc n) = length-drop s n ∙ omega arith
