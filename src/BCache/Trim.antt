-- ===== src/BCache/Trim.antt =====
-- `bcache_trim` of `basekernel/kernel/bcache.c`: entries go, and what the cache shows stays.
use stage_os.Base.{
  ℕ, zero, suc, ◌+◌, ◌≤◌, ◌≡◌, ◌∙◌, refl, ap, sym, subst, Bool, true, false, some, List, [], ◌∷◌,
  ◌++◌, length, arith, inl, inr, Bool-cases, lt→ltb, ge→ltb, length-append,
}
use native.Mathlib.Decide.{dec_lt}
use stage_os.BCache.{Devices, Entry, entry_clean, pop_tail, trim_loop, is_at, max_cache_size}
use stage_os.BCache.View.{view, Absent, Distinct, IsBacked, AllBacked, KeepsBlocks}

module _ {ℓ} {B : Type ℓ} where
  pop_tail-append :
      (e : Entry B) (es : List (Entry B)) → (pop_tail e es).0 ++ ((pop_tail e es).1 ∷ []) ≡ e ∷ es
  unfolding pop_tail
  pop_tail-append e [] = refl
  pop_tail-append e (f ∷ es) = ap (λ l. e ∷ l) (pop_tail-append f es)

  Absent-init :
      (dv b : ℕ) (l : List (Entry B)) (x : Entry B) → Absent dv b (l ++ (x ∷ [])) → Absent dv b l
  Absent-init dv b [] x h = tt
  Absent-init dv b (e ∷ l) x h = (h.0, Absent-init dv b l x h.1)

  Absent-last :
      (dv b : ℕ) (l : List (Entry B)) (x : Entry B)
      → Absent dv b (l ++ (x ∷ []))
      → is_at dv b x ≡ false
  Absent-last dv b [] x h = h.0
  Absent-last dv b (e ∷ l) x h = Absent-last dv b l x h.1

  pub is_at-true : (dv b : ℕ) (x : Entry B) → is_at dv b x ≡ true → (x.device ≡ dv) × (x.block ≡ b)
  is_at-true dv b x h = (ground arith, ground arith)

  is_at-swap : (e x : Entry B) → is_at e.device e.block x ≡ false → is_at x.device x.block e ≡ false
  is_at-swap e x h = ground arith

  Distinct-last :
      (l : List (Entry B)) (x : Entry B)
      → Distinct (l ++ (x ∷ []))
      → Distinct l × Absent x.device x.block l
  Distinct-last [] x h = (tt, tt)
  Distinct-last (e ∷ l) x h =
      let r = Distinct-last l x h.1 in
      (
        (Absent-init e.device e.block l x h.0, r.0),
        (is_at-swap e x (Absent-last e.device e.block l x h.0), r.1),
      )

module _ {ℓ ℓ'} {D : Type ℓ} {B : Type ℓ'} (io : Devices D B) {writable : ℕ → ℕ → Bool}
    (laws : KeepsBlocks io writable) where
  -- A block whose write fails is not writable.
  refused : (d : D) (dv b : ℕ) (x : B) → (io.write_block d dv b x).1 ≡ false → writable dv b ≡ false
  refused d dv b x failed = elim (Bool-cases (writable dv b)) [
    | inl can ↦ let done = laws.accepts d dv b x can in cc
    | inr cannot ↦ cannot
  ]

  -- The device after an entry was cleaned, at the block of the entry
  pub clean-same :
      (x : Entry B) (d : D) (n : ℕ)
      → IsBacked io writable d x
      → io.read_block (entry_clean io x d n).1 x.device x.block ≡ some x.content
  unfolding entry_clean
  clean-same x d n h = elim (Bool-cases x.dirty) [
    | inr e ↦ rw e (h (rw e refl))
    | inl e ↦ rw e (elim (Bool-cases (io.write_block d x.device x.block x.content).1) [
      | inl done ↦ laws.read_same d x.device x.block x.content done
      | inr failed ↦
          laws.refuses d x.device x.block x.content failed
          ∙ h (rw e (refused d x.device x.block x.content failed))
    ])
  ]

  -- and at another one
  pub clean-other :
      (x : Entry B) (d : D) (n dv b : ℕ)
      → is_at dv b x ≡ false
      → io.read_block (entry_clean io x d n).1 dv b ≡ io.read_block d dv b
  unfolding entry_clean
  clean-other x d n dv b h = elim (Bool-cases x.dirty) [
    | inl e ↦ rw e (laws.read_other d x.device x.block dv b x.content h)
    | inr e ↦ rw e refl
  ]

  -- Cleaning an entry does not change what is shown without it.
  view-clean :
      (l : List (Entry B)) (x : Entry B) (d : D) (n dv b : ℕ)
      → IsBacked io writable d x
      → view io l (entry_clean io x d n).1 dv b ≡ view io (l ++ (x ∷ [])) d dv b
  unfolding view
  view-clean [] x d n dv b h = elim (Bool-cases (is_at dv b x)) [
    | inl e ↦
        let p = is_at-true dv b x e in
        rw e (
          subst (λ v. io.read_block (entry_clean io x d n).1 v b ≡ some x.content) p.0
            (subst (λ v. io.read_block (entry_clean io x d n).1 x.device v ≡ some x.content) p.1
              (clean-same x d n h)))
    | inr e ↦ rw e (clean-other x d n dv b e)
  ]
  view-clean (e ∷ l) x d n dv b h = rw (view-clean l x d n dv b h) refl

  pub clean-AllBacked :
      (l : List (Entry B)) (x : Entry B) (d : D) (n : ℕ)
      → AllBacked io writable d l
      → Absent x.device x.block l
      → AllBacked io writable (entry_clean io x d n).1 l
  clean-AllBacked [] x d n h a = tt
  clean-AllBacked (e ∷ l) x d n h a = (
    λ c. clean-other x d n e.device e.block (is_at-swap x e a.0) ∙ h.0 c,
    clean-AllBacked l x d n h.1 a.1,
  )

  AllBacked-last :
      (l : List (Entry B)) (x : Entry B) (d : D)
      → AllBacked io writable d (l ++ (x ∷ []))
      → AllBacked io writable d l × IsBacked io writable d x
  AllBacked-last [] x d h = (tt, h.0)
  AllBacked-last (e ∷ l) x d h = let r = AllBacked-last l x d h.1 in ((h.0, r.0), r.1)

  -- What the trimming leaves behind the first entry
  pub record Trimmed (es : List (Entry B)) (d : D) (es' : List (Entry B)) (d' : D)
      : Type (ℓ ⊔ ℓ') where
    pub same_view : (dv b : ℕ) → view io es' d' dv b ≡ view io es d dv b
    pub backed : AllBacked io writable d' es'
    pub distinct : Distinct es'
    pub absent : (dv b : ℕ) → Absent dv b es → Absent dv b es'
    pub bound : suc (length es') ≤ max_cache_size

  -- One round
  record Popped (f : Entry B) (fs : List (Entry B)) (d : D) (n : ℕ) : Type (ℓ ⊔ ℓ') where
    same_view :
        (dv b : ℕ)
        → view io (pop_tail f fs).0 (entry_clean io (pop_tail f fs).1 d n).1 dv b
          ≡ view io (f ∷ fs) d dv b
    backed : AllBacked io writable (entry_clean io (pop_tail f fs).1 d n).1 (pop_tail f fs).0
    distinct : Distinct (pop_tail f fs).0
    absent : (dv b : ℕ) → Absent dv b (f ∷ fs) → Absent dv b (pop_tail f fs).0
    shorter : suc (length (pop_tail f fs).0) ≡ length (f ∷ fs)

  pop-Popped :
      (f : Entry B) (fs : List (Entry B)) (d : D) (n : ℕ)
      → AllBacked io writable d (f ∷ fs)
      → Distinct (f ∷ fs)
      → Popped f fs d n
  pop-Popped f fs d n ab di =
      let l = (pop_tail f fs).0 in
      let x = (pop_tail f fs).1 in
      let e : l ++ (x ∷ []) ≡ f ∷ fs = pop_tail-append f fs in
      let b = AllBacked-last l x d (subst (AllBacked io writable d) (sym e) ab) in
      let u = Distinct-last l x (subst Distinct (sym e) di) in
      record {
        same_view = λ dv blk. view-clean l x d n dv blk b.1 ∙ ap (λ es. view io es d dv blk) e;
        backed = clean-AllBacked l x d n b.0 u.1;
        distinct = u.0;
        absent = λ dv blk a. Absent-init dv blk l x (subst (Absent dv blk) (sym e) a);
        shorter = omega (arith, length-append l (x ∷ []), ap length e);
      }

  pub trim_loop-Trimmed :
      (rounds : ℕ) (e : Entry B) (es : List (Entry B)) (d : D) (n : ℕ)
      → AllBacked io writable d es
      → Distinct es
      → length (e ∷ es) ≤ rounds + max_cache_size
      → (es' : List (Entry B)) × (d' : D) × (n' : ℕ) × (trim_loop io rounds (e ∷ es) d n
          ≡ (e ∷ es', d', n'))
        × Trimmed es d es' d'
  unfolding trim_loop pop_tail
  trim_loop-Trimmed zero e es d n ab di h = (
    es,
    d,
    n,
    refl,
    record {
      same_view = λ dv b. refl;
      backed = ab;
      distinct = di;
      absent = λ dv b a. a;
      bound = omega arith;
    },
  )
  trim_loop-Trimmed (suc rounds) e [] d n ab di h = (
    [],
    d,
    n,
    refl,
    record {
      same_view = λ dv b. refl;
      backed = ab;
      distinct = di;
      absent = λ dv b a. a;
      bound = omega arith;
    },
  )
  trim_loop-Trimmed (suc rounds) e (f ∷ fs) d n ab di h =
      elim (dec_lt max_cache_size (length (e ∷ f ∷ fs))) [
        | yes lt ↦
            let p = pop-Popped f fs d n ab di in
            let c = entry_clean io (pop_tail f fs).1 d n in
            let r =
              trim_loop-Trimmed rounds e (pop_tail f fs).0 c.1 c.2 p.backed p.distinct
                (omega (arith, p.shorter)) in
            (
              r.0,
              r.1,
              r.2,
              rw (lt→ltb max_cache_size (length (e ∷ f ∷ fs)) lt) r.3,
              record {
                same_view = λ dv b. r.4.same_view dv b ∙ p.same_view dv b;
                backed = r.4.backed;
                distinct = r.4.distinct;
                absent = λ dv b a. r.4.absent dv b (p.absent dv b a);
                bound = r.4.bound;
              },
            )
        | no ge ↦ (
          f ∷ fs,
          d,
          n,
          rw (ge→ltb max_cache_size (length (e ∷ f ∷ fs)) (omega arith)) refl,
          record {
            same_view = λ dv b. refl;
            backed = ab;
            distinct = di;
            absent = λ dv b a. a;
            bound = omega arith;
          },
        )
      ]
