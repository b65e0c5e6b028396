-- ===== src/KObject/References.antt =====
-- `basekernel/kernel/kobject.c` keeps count of the references to what its objects stand for.
use stage_os.Base.{
  ◌≢◌, ◌<◌, ap, ℕ, zero, suc, ◌+◌, ◌-◌, ◌≡◌, refl, Option, none, some, List, [], ◌∷◌, ◌++◌, ◌==◌,
  if◌then◌else◌, get_elem?, set, length, arith, Bool-cases, inl, inr,
}
use stage_os.KObject.{Kind, KObject, Store, same_kind, copy, close}

-- An object stands for a target.
abbrev pub holds : Kind → ℕ → Option KObject → ℕ
holds k t none = 0
holds k t (some o) = if same_kind o.kind k then (if o.target == t then 1 else 0) else 0

-- The number of objects that stand for a target
unfoldable pub holders : Kind → ℕ → List (Option KObject) → ℕ
holders k t [] = 0
holders k t (o ∷ l) = holds k t o + holders k t l

-- Every reference is that of an object, or one of those that others hold.
abbrev pub Counted : (outside : Kind → ℕ → ℕ) → Store → Type 0
Counted outside s = (k : Kind) (t : ℕ) → s.refs k t ≡ outside k t + holders k t s.objects

holders-append :
    (k : Kind) (t : ℕ) (l : List (Option KObject)) (o : Option KObject)
    → holders k t (l ++ o ∷ []) ≡ holders k t l + holds k t o
unfolding holders
holders-append k t [] o = omega arith
holders-append k t (x ∷ l) o = omega (arith, holders-append k t l o)

holders-set :
    (k : Kind) (t : ℕ) (l : List (Option KObject)) (p : ℕ) (o o' : Option KObject)
    → get_elem? l p ≡ some o
    → holders k t (set l p o') + holds k t o ≡ holders k t l + holds k t o'
unfolding holders
holders-set k t [] p o o' e = cc
holders-set k t (x ∷ l) zero o o' e = let same : x ≡ o = cc in rw same (omega arith)
holders-set k t (x ∷ l) (suc p) o o' e = omega (arith, holders-set k t l p o o' e)

-- `kobject_copy` makes an object that refers to the same target, and counts the new reference.
pub copy-Counted :
    (outside : Kind → ℕ → ℕ) (o : KObject) (s : Store)
    → Counted outside s
    → Counted outside (copy o s).1
unfolding copy
copy-Counted outside o s c k t =
    let more = holders-append k t s.objects (some (record o { refcount = 1 })) in
    rw more (ground (arith, c k t))

-- `kobject_close` of the last reference to an object frees it and gives its reference to the target
-- back; before that it keeps both.
pub close-Counted :
    (outside : Kind → ℕ → ℕ) (p : ℕ) (o : KObject) (s : Store)
    → get_elem? s.objects p ≡ some (some o)
    → Counted outside s
    → Counted outside (close p o s)
unfolding close
close-Counted outside p o s there c k t = elim (Bool-cases ((o.refcount - 1) == 0)) [
  | inl last ↦
      let less = holders-set k t s.objects p (some o) none there in
      rw last (ground (arith, c k t, less))
  | inr shared ↦
      let same =
        holders-set k t s.objects p (some o) (some (record o { refcount = o.refcount - 1 }))
          there in
      rw shared (ground (arith, c k t, same))
]

get_elem?-append_last :
    (l : List (Option KObject)) (o : Option KObject) → get_elem? (l ++ o ∷ []) (length l) ≡ some o
get_elem?-append_last [] o = refl
get_elem?-append_last (x ∷ l) o = get_elem?-append_last l o

pub get_elem?-append_left :
    (l r : List (Option KObject)) (p : ℕ) (o : Option KObject)
    → get_elem? l p ≡ some o
    → get_elem? (l ++ r) p ≡ some o
get_elem?-append_left [] r p o e = cc
get_elem?-append_left (x ∷ l) r zero o e = e
get_elem?-append_left (x ∷ l) r (suc p) o e = get_elem?-append_left l r p o e

pub get_elem?-lt :
    (l : List (Option KObject)) (p : ℕ) (o : Option KObject) → get_elem? l p ≡ some o → p < length l
get_elem?-lt [] p o e = cc
get_elem?-lt (x ∷ l) zero o e = omega arith
get_elem?-lt (x ∷ l) (suc p) o e = omega (arith, get_elem?-lt l p o e)

pub get_elem?-set_self :
    (l : List (Option KObject)) (p : ℕ) (o v : Option KObject)
    → get_elem? l p ≡ some o
    → get_elem? (set l p v) p ≡ some v
get_elem?-set_self [] p o v e = cc
get_elem?-set_self (x ∷ l) zero o v e = refl
get_elem?-set_self (x ∷ l) (suc p) o v e = get_elem?-set_self l p o v e

pub get_elem?-set_ne :
    (l : List (Option KObject)) (p q : ℕ) (v : Option KObject)
    → p ≢ q
    → get_elem? (set l p v) q ≡ get_elem? l q
get_elem?-set_ne [] p q v ne = refl
get_elem?-set_ne (x ∷ l) zero zero v ne = absurd (ne refl)
get_elem?-set_ne (x ∷ l) zero (suc q) v ne = refl
get_elem?-set_ne (x ∷ l) (suc p) zero v ne = refl
get_elem?-set_ne (x ∷ l) (suc p) (suc q) v ne = get_elem?-set_ne l p q v (λ e. ne (ap suc e))

-- The copy stands in a new cell.
pub copy_place : (o : KObject) (s : Store) → (copy o s).0 ≡ length s.objects
unfolding copy
copy_place o s = refl

pub copy_object :
    (o : KObject) (s : Store)
    → get_elem? (copy o s).1.objects (copy o s).0 ≡ some (some (record o { refcount = 1 }))
unfolding copy
copy_object o s = get_elem?-append_last s.objects (some (record o { refcount = 1 }))
