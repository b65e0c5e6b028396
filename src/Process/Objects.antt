-- ===== src/Process/Objects.antt =====
-- The descriptors that `process_available_fd` and `process_object_max` of `basekernel/kernel/process.c`
-- find.
use stage_os.Base.{
  ℕ, zero, suc, ◌+◌, ◌<◌, ◌≡◌, ◌⊎◌, refl, true, false, Option, none, some, List, [], ◌∷◌, length,
  arith, inl, inr,
}
use stage_os.Process.{is_free, available_from, available_fd}

-- The least free descriptor of the table, from the number `i` of its first one on
pub record Available (t : List (Option ℕ)) (i : ℕ) (r : ℕ) : Type 0 where
  at : ℕ
  place : r ≡ i + at
  inside : at < length t
  free : is_free t at ≡ true
  least : (j : ℕ) → j < at → is_free t j ≡ false

available_from-lem :
    (t : List (Option ℕ)) (i : ℕ)
    → ((r : ℕ) × (available_from t i ≡ some r) × Available t i r)
      ⊎ ((available_from t i ≡ none) × ((j : ℕ) → j < length t → is_free t j ≡ false))
unfolding available_from
available_from-lem [] i = inr (refl, λ j h. absurd (omega arith))
available_from-lem (none ∷ t) i = inl (
  i,
  refl,
  record {
    at = 0;
    place = omega arith;
    inside = omega arith;
    free = refl;
    least = λ j h. absurd (omega arith);
  },
)
available_from-lem (some o ∷ t) i = elim (available_from-lem t (i + 1)) [
  | inl r ↦ inl (
    r.0,
    r.1,
    record {
      at = suc r.2.at;
      place = omega (arith, r.2.place);
      inside = omega (arith, r.2.inside);
      free = r.2.free;
      least = below r.2.at r.2.least;
    },
  )
  | inr r ↦ inr (r.0, all_used r.1)
]
  where
    below :
        (n : ℕ)
        → ((j : ℕ) → j < n → is_free t j ≡ false)
        → (j : ℕ) → j < suc n
        → is_free (some o ∷ t) j ≡ false
    below n f zero h = refl
    below n f (suc j) h = f j (omega arith)

    all_used :
        ((j : ℕ) → j < length t → is_free t j ≡ false)
        → (j : ℕ) → j < suc (length t)
        → is_free (some o ∷ t) j ≡ false
    all_used f zero h = refl
    all_used f (suc j) h = f j (omega arith)

-- `process_available_fd` gives the least free descriptor of the current process, or -1 where every one
-- is in use.
pub available_fd-least :
    (t : List (Option ℕ))
    → ((r : ℕ) × (available_fd t ≡ some r) × Available t 0 r)
      ⊎ ((available_fd t ≡ none) × ((j : ℕ) → j < length t → is_free t j ≡ false))
unfolding available_fd
available_fd-least t = available_from-lem t 0
