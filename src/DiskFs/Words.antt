-- ===== src/DiskFs/Words.antt =====
-- Words and inodes in a block of `basekernel/kernel/diskfs.h`: what is stored is read again.
use stage_os.Base.{
  ℕ, zero, suc, ◌+◌, ◌*◌, ◌/◌, ◌%◌, ◌^◌, ◌<◌, ◌≤◌, ◌≡◌, ◌≢◌, ◌⊎◌, inl, refl, ap, ap₂, ◌∙◌, List, [],
  ◌∷◌, length, get_or, arith,
}
use stage_os.DiskFs.Layout.{
  Block, get32, put32, get_words, put_words, Inode, inode_words, words_inode, get_inode, put_inode,
}

pub put32-other : (b : Block) (at v p : ℕ) → (p < at) ⊎ (at + 4 ≤ p) → put32 b at v p ≡ b p
put32-other b at v p h = ground arith

pub get32-put32 : (b : Block) (at v : ℕ) → v < 2 ^ 32 → get32 (put32 b at v) at ≡ v
get32-put32 b at v h =
    let b0 : put32 b at v at ≡ v % 256 = ground arith in
    let b1 : put32 b at v (at + 1) ≡ v / 256 % 256 = ground arith in
    let b2 : put32 b at v (at + 2) ≡ v / 65536 % 256 = ground arith in
    let b3 : put32 b at v (at + 3) ≡ v / 16777216 % 256 = ground arith in
    omega (arith, b0, b1, b2, b3)

-- Every word of the list fits 32 bits.
abbrev pub AreWords : List ℕ → Type 0
AreWords [] = Unit {0}
AreWords (v ∷ vs) = (v < 2 ^ 32) × AreWords vs

pub put_words-other :
    (b : Block) (at : ℕ) (vs : List ℕ) (p : ℕ)
    → (p < at) ⊎ (at + 4 * length vs ≤ p)
    → put_words b at vs p ≡ b p
unfolding put_words
put_words-other b at [] p h = refl
put_words-other b at (v ∷ vs) p h =
    put_words-other (put32 b at v) (at + 4) vs p (ground arith)
    ∙ put32-other b at v p (ground arith)

get32-of :
    (b c : Block) (at : ℕ) → ((p : ℕ) → at ≤ p → p < at + 4 → b p ≡ c p) → get32 b at ≡ get32 c at
get32-of b c at h = omega (
  arith,
  h at (omega arith) (omega arith),
  h (at + 1) (omega arith) (omega arith),
  h (at + 2) (omega arith) (omega arith),
  h (at + 3) (omega arith) (omega arith),
)

-- Words that are stored are read again.
pub get_words-put_words :
    (b : Block) (at : ℕ) (vs : List ℕ)
    → AreWords vs
    → get_words (put_words b at vs) at (length vs) ≡ vs
unfolding get_words put_words
get_words-put_words b at [] h = refl
get_words-put_words b at (v ∷ vs) h =
    ap₂ (λ w ws. w ∷ ws)
      (get32-of (put_words (put32 b at v) (at + 4) vs) (put32 b at v) at
          (λ p a c. put_words-other (put32 b at v) (at + 4) vs p (inl (omega arith)))
        ∙ get32-put32 b at v h.0)
      (get_words-put_words (put32 b at v) (at + 4) vs h.1)

pub get_words-other :
    (b c : Block) (at n : ℕ)
    → ((p : ℕ) → at ≤ p → p < at + 4 * n → b p ≡ c p)
    → get_words b at n ≡ get_words c at n
unfolding get_words
get_words-other b c at zero h = refl
get_words-other b c at (suc n) h =
    ap₂ (λ w ws. w ∷ ws) (get32-of b c at (λ p a d. h p a (omega arith)))
      (get_words-other b c (at + 4) n (λ p a d. h p (omega arith) (omega arith)))

-- An inode with six direct pointers, all its words of 32 bits
pub record IsInode (i : Inode) : Type 0 where
  pub pointers : length i.direct ≡ 6
  pub words : AreWords (inode_words i)

direct_list :
    (l : List ℕ)
    → length l ≡ 6
    → get_or l 0 0 ∷ get_or l 1 0 ∷ get_or l 2 0 ∷ get_or l 3 0 ∷ get_or l 4 0 ∷ get_or l 5 0 ∷ []
      ≡ l
direct_list (a ∷ b ∷ c ∷ d ∷ e ∷ f ∷ []) h = refl
direct_list (a ∷ b ∷ c ∷ d ∷ e ∷ f ∷ g ∷ r) h = absurd (omega arith)
direct_list [] h = absurd (omega arith)
direct_list (a ∷ []) h = absurd (omega arith)
direct_list (a ∷ b ∷ []) h = absurd (omega arith)
direct_list (a ∷ b ∷ c ∷ []) h = absurd (omega arith)
direct_list (a ∷ b ∷ c ∷ d ∷ []) h = absurd (omega arith)
direct_list (a ∷ b ∷ c ∷ d ∷ e ∷ []) h = absurd (omega arith)

-- An inode that is stored in a block is read again, and the block's other inodes stay.
pub get_inode-put_inode :
    (b : Block) (j : ℕ) (i : Inode) → IsInode i → get_inode (put_inode b j i) j ≡ i
unfolding get_inode put_inode
get_inode-put_inode b j i h =
    ap words_inode (get_words-put_words b (36 * j) (inode_words i) h.words)
    ∙ ap (λ l. record i { direct = l }) (direct_list i.direct h.pointers)

pub get_inode-put_inode_ne :
    (b : Block) (j k : ℕ) (i : Inode) → j ≢ k → get_inode (put_inode b j i) k ≡ get_inode b k
unfolding get_inode put_inode
get_inode-put_inode_ne b j k i h = ap words_inode (
    get_words-other (put_inode b j i) b (36 * k) 9
      (λ p a c. put_words-other b (36 * j) (inode_words i) p (ground arith)))
