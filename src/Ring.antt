-- ===== src/Ring.antt =====
-- Circular arrays with one cell kept free, as `basekernel/kernel/event_queue.c` and
-- `basekernel/kernel/pipe.c` index them: the write position is advanced by `(i + 1) % cap`, and the
-- array is empty when both positions agree.
use stage_os.Base.{
  ℕ, zero, suc, ◌+◌, ◌-◌, ◌%◌, ◌≤◌, ◌<◌, ◌≡◌, ◌≢◌, refl, ap, ap₂, sym, List, [], ◌∷◌, ◌++◌, arith,
  ◌==◌, leb, if◌then◌else◌, length, get_or, set, get_or-set_self, get_or-set_ne,
}
use native.Mathlib.Nat.{mod-eq_of_lt}
use native.Mathlib.Decide.{ℕ_discrete}

-- The number of elements between a read position and a write position.
unfoldable pub span : ℕ → ℕ → ℕ → ℕ
span cap from to = if leb from to then to - from else to + cap - from

-- The position after `i`.
abbrev pub next : ℕ → ℕ → ℕ
next cap i = if i + 1 == cap then 0 else i + 1

pub mod-next : (cap i : ℕ) → i < cap → (i + 1) % cap ≡ next cap i
mod-next cap i h = elim (ℕ_discrete (i + 1) cap) [
  | yes e ↦ grind arith
  | no ne ↦ ground (arith, mod-eq_of_lt {n = i + 1} {m = cap} (omega arith))
]

module _ (cap from to : ℕ) (hf : from < cap) (ht : to < cap) where
  pub next-lt : (next cap from < cap)
  next-lt = ground arith

  pub span-lt : span cap from to < cap
  unfolding span
  span-lt = ground arith

  pub span_zero : span cap from to ≡ 0 → from ≡ to
  unfolding span
  span_zero h = ground arith

  -- Writing moves the end by one, unless the array is full.
  pub span-next_to : (next cap to ≢ from) → span cap from (next cap to) ≡ span cap from to + 1
  unfolding span
  span-next_to h = ground arith

  pub span_full : next cap to ≡ from → span cap from to + 1 ≡ cap
  unfolding span
  span_full h = ground arith

  pub span_not_full : next cap to ≢ from → span cap from to + 1 < cap
  unfolding span
  span_not_full h = ground arith

  -- Reading moves the start by one, unless the array is empty.
  pub span-next_from : from ≢ to → span cap (next cap from) to + 1 ≡ span cap from to
  unfolding span
  span-next_from h = ground arith

pub span_self : (cap i : ℕ) → span cap i i ≡ 0
unfolding span
span_self cap i = ground arith

module _ {ℓ} {A : Type ℓ} where
  -- The `n` elements from position `i` on.
  unfoldable pub window : List A → A → ℕ → ℕ → ℕ → List A
  window buf d cap i zero = []
  window buf d cap i (suc n) = get_or buf i d ∷ window buf d cap (next cap i) n

  pub length-window : (buf : List A) (d : A) (cap i n : ℕ) → length (window buf d cap i n) ≡ n
  unfolding window
  length-window buf d cap i zero = refl
  length-window buf d cap i (suc n) = ap suc (length-window buf d cap (next cap i) n)

  -- A write at the end of a window extends it by the element.
  pub window-snoc :
      (buf : List A) (d x : A) (cap n from to : ℕ)
      → cap ≤ length buf
      → from < cap
      → to < cap
      → span cap from to ≡ n
      → window (set buf to x) d cap from (suc n) ≡ window buf d cap from n ++ (x ∷ [])
  unfolding window
  window-snoc buf d x cap zero from to hl hf ht hs =
      rw (span_zero cap from to hf ht hs)
        (ap (λ y. y ∷ []) (get_or-set_self buf to x d (omega arith)))
  window-snoc buf d x cap (suc n) from to hl hf ht hs =
      let ne : from ≢ to = λ e. absurd (omega (arith, span_self cap from, ap (span cap from) e)) in
      ap₂ ◌∷◌ (get_or-set_ne buf to from x d (λ e. ne (sym e))) (
        window-snoc buf d x cap n (next cap from) to hl (next-lt cap from to hf ht) ht
          (omega (arith, span-next_from cap from to hf ht ne)))
