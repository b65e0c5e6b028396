-- ===== src/Process/Pids.antt =====
-- The pids that `process_allocate_pid` of `basekernel/kernel/process.c` gives.
use stage_os.Base.{
  ℕ, zero, suc, ◌+◌, ◌-◌, ◌<◌, ◌≤◌, ◌≡◌, ◌≢◌, ◌∙◌, ◌⊎◌, refl, ap, sym, true, false, Option, none,
  some, List, arith, inl, inr, Bool-cases, Option-cases,
}
use native.Mathlib.Decide.{dec_lt, ℕ_discrete}
use stage_os.Process.{max_pid, is_free, first_free, allocate_pid}

first_free-some :
    (table : List (Option ℕ)) (n i j : ℕ)
    → first_free table n i ≡ some j
    → (i ≤ j) × (j < i + n) × (is_free table j ≡ true)
unfolding first_free
first_free-some table zero i j e = absurd cc
first_free-some table (suc n) i j e = elim (Bool-cases (is_free table i)) [
  | inl t ↦
      let f = rw (t, first_free) at e in
      let g : i ≡ j = cc in (omega (arith, g), omega (arith, g), ap (is_free table) (sym g) ∙ t)
  | inr t ↦
      let f = rw (t, first_free) at e in
      let r = first_free-some table n (i + 1) j f in (omega (arith, r.0), omega (arith, r.1), r.2)
]

first_free-none :
    (table : List (Option ℕ)) (n i j : ℕ)
    → first_free table n i ≡ none
    → i ≤ j
    → j < i + n
    → is_free table j ≡ false
unfolding first_free
first_free-none table zero i j e le lt = absurd (omega arith)
first_free-none table (suc n) i j e le lt = elim (Bool-cases (is_free table i)) [
  | inl t ↦ let f = rw (t, first_free) at e in absurd cc
  | inr t ↦
      let f = rw (t, first_free) at e in
      elim (ℕ_discrete i j) [
        | yes same ↦ ap (is_free table) (sym same) ∙ t
        | no other ↦ first_free-none table n (i + 1) j f (omega (arith, other)) (omega arith)
      ]
]

-- A pid that was given
pub record Given (table : List (Option ℕ)) (last : ℕ) (r : ℕ × ℕ) : Type 0 where
  lower : 1 ≤ r.0
  upper : r.0 < max_pid
  free : is_free table r.0 ≡ true
  renewed : r.0 ≢ last
  remembered : r.1 ≡ r.0

-- `process_allocate_pid` gives a free pid from 1 to 1023 other than the one it gave last, and remembers
-- it; or it gives 0 and no such pid is free.
pub allocate_pid-Given :
    (table : List (Option ℕ)) (last : ℕ)
    → last < max_pid
    → Given table last (allocate_pid table last)
      ⊎ ((allocate_pid table last ≡ (0, last))
          × ((i : ℕ) → 1 ≤ i → i < max_pid → i ≢ last → is_free table i ≡ false))
unfolding allocate_pid
allocate_pid-Given table last h =
    elim (Option-cases (first_free table (max_pid - (last + 1)) (last + 1))) [
      | inr p ↦
          let r = first_free-some table (max_pid - (last + 1)) (last + 1) p.0 p.1 in
          inl (
            rw (p.1, allocate_pid)
              record {
                lower = omega (arith, r.0);
                upper = omega (arith, r.1);
                free = r.2;
                renewed = λ e. omega (arith, r.0, e);
                remembered = refl;
              })
      | inl z ↦ elim (Option-cases (first_free table (last - 1) 1)) [
        | inr p ↦
            let r = first_free-some table (last - 1) 1 p.0 p.1 in
            inl (
              rw (z, p.1, allocate_pid)
                record {
                  lower = r.0;
                  upper = omega (arith, r.0, r.1);
                  free = r.2;
                  renewed = λ e. omega (arith, r.0, r.1, e);
                  remembered = refl;
                })
        | inl y ↦ inr (
          rw (z, y, allocate_pid) refl,
          λ i low high ne. elim (dec_lt i last) [
            | yes lt ↦ first_free-none table (last - 1) 1 i y low (omega arith)
            | no ge ↦
                first_free-none table (max_pid - (last + 1)) (last + 1) i z (omega (arith, ne))
                  (omega arith)
          ],
        )
      ]
    ]
