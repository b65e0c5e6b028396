-- ===== src/Process/Copied.antt =====
-- `process_inherit` of `basekernel/kernel/process.c` gives the child copies of the objects of its parent.
use stage_os.Base.{
  ℕ, suc, ◌+◌, ◌≤◌, ◌≡◌, ◌∙◌, refl, ap, sym, Option, none, some, List, [], ◌∷◌, get_or, get_elem?,
  drop, length, length-append, append-nil, arith,
}
use stage_os.KObject.{Kind, KObject, Store, copy}
use stage_os.KObject.References.{
  get_elem?-append_left, Counted, copy-Counted, copy_place, copy_object,
}
use stage_os.Process.Inherit.{
  object_at, copy_fds, selective_inherit, used_fds, inherit, HasObjects, Copies,
}

-- Objects are only added.
record Extends (s s' : Store) : Type 0 where
  kept :
      (p : ℕ) (o : Option KObject)
      → get_elem? s.objects p ≡ some o
      → get_elem? s'.objects p ≡ some o
  longer : length s.objects ≤ length s'.objects

Extends-trans : (a b c : Store) → Extends a b → Extends b c → Extends a c
Extends-trans a b c x y = record {
  kept = λ p o e. y.kept p o (x.kept p o e);
  longer = omega (arith, x.longer, y.longer);
}

copy-Extends : (o : KObject) (s : Store) → Extends s (copy o s).1
unfolding copy
copy-Extends o s = record {
  kept = λ p c e. get_elem?-append_left s.objects _ p c e;
  longer = omega (arith, length-append s.objects (some (record o { refcount = 1 }) ∷ []));
}

-- What the loop does from store `s` on, where `s0` is the store at its begin
record Copied (outside : Kind → ℕ → ℕ) (s0 s : Store) (parent fds ts : List (Option ℕ))
    : Type 0 where
  table : List (Option ℕ)
  after : Store
  result : copy_fds parent fds s ≡ some (table, after)
  counted : Counted outside after
  extends : Extends s after
  copies : Copies s0 after ts table

object_at_lem :
    (s : Store) (table : List (Option ℕ)) (fd p : ℕ) (o : KObject)
    → get_or table fd none ≡ some p
    → get_elem? s.objects p ≡ some (some o)
    → object_at s table fd ≡ some o
object_at_lem s table fd p o e e' = rw (e, object_at) (rw e' refl)

copy_fds-some :
    (parent fds : List (Option ℕ)) (fd : ℕ) (s : Store) (o : KObject) (table : List (Option ℕ))
    (after : Store)
    → object_at s parent fd ≡ some o
    → copy_fds parent fds (copy o s).1 ≡ some (table, after)
    → copy_fds parent (some fd ∷ fds) s ≡ some (some (copy o s).0 ∷ table, after)
unfolding copy_fds
copy_fds-some parent fds fd s o table after found rest =
    rw (found, copy_fds) (rw (rest, copy_fds) refl)

zero_add : (j : ℕ) → 0 + j ≡ j
zero_add j = omega arith

add_zero : (i : ℕ) → i + 0 ≡ i
add_zero i = omega arith

shifted :
    (i : ℕ) (parent : List (Option ℕ)) (t : Option ℕ) (ts : List (Option ℕ))
    → ((j : ℕ) → get_or parent (i + j) none ≡ get_or (t ∷ ts) j none)
    → (j : ℕ) → get_or parent (i + 1 + j) none ≡ get_or ts j none
shifted i parent t ts same j =
    let next : i + 1 + j ≡ i + suc j = omega arith in
    ap (λ n. get_or parent n none) next ∙ same (suc j)

copy_fds-Copied :
    (outside : Kind → ℕ → ℕ) (s0 s : Store) (parent : List (Option ℕ)) (i : ℕ)
    (ts : List (Option ℕ))
    → ((j : ℕ) → get_or parent (i + j) none ≡ get_or ts j none)
    → HasObjects s0 ts
    → Extends s0 s
    → Counted outside s
    → Copied outside s0 s parent (used_fds i ts) ts
unfolding copy_fds used_fds
copy_fds-Copied outside s0 s parent i [] same has ext c = record {
  table = [];
  after = s;
  result = refl;
  counted = c;
  extends = record { kept = λ p o e. e; longer = omega arith };
  copies = refl;
}
copy_fds-Copied outside s0 s parent i (none ∷ ts) same has ext c =
    let r =
      copy_fds-Copied outside s0 s parent (i + 1) ts (shifted i parent none ts same) has ext c in
    record {
      table = none ∷ r.table;
      after = r.after;
      result = rw r.result refl;
      counted = r.counted;
      extends = r.extends;
      copies = (refl, r.copies);
    }
copy_fds-Copied outside s0 s parent i (some p ∷ ts) same has ext c =
    let o : KObject = has.0.0 in
    let s1 : Store = (copy o s).1 in
    let one = copy-Extends o s in
    let r =
      copy_fds-Copied outside s0 s1 parent (i + 1) ts (shifted i parent (some p) ts same) has.1
        (Extends-trans s0 s s1 ext one) (copy-Counted outside o s c) in
    let here : get_or parent i none ≡ some p =
      ap (λ n. get_or parent n none) (sym (add_zero i)) ∙ same 0 in
    let found : object_at s parent i ≡ some o =
      object_at_lem s parent i p o here (ext.kept p (some o) has.0.1) in
    record {
      table = some (copy o s).0 ∷ r.table;
      after = r.after;
      result = copy_fds-some parent (used_fds (i + 1) ts) i s o r.table r.after found r.result;
      counted = r.counted;
      extends = Extends-trans s s1 r.after one r.extends;
      copies = (
        (
          o,
          (copy o s).0,
          has.0.1,
          refl,
          omega (arith, copy_place o s, ext.longer),
          r.extends.kept _ _ (copy_object o s),
        ),
        r.copies,
      );
    }

length-used_fds : (i : ℕ) (ts : List (Option ℕ)) → length (used_fds i ts) ≡ length ts
unfolding used_fds
length-used_fds i [] = refl
length-used_fds i (none ∷ ts) = ap suc (length-used_fds (i + 1) ts)
length-used_fds i (some p ∷ ts) = ap suc (length-used_fds (i + 1) ts)

drop_all : (ts : List (Option ℕ)) → drop (length ts) ts ≡ []
drop_all [] = refl
drop_all (t ∷ ts) = drop_all ts

-- `process_inherit` succeeds if every descriptor of the parent has an object. Then the child has, at the
-- descriptors of the parent and no others, new objects of one reference that stand for the same, and
-- every reference to what an object stands for is counted.
pub inherit-Copies :
    (outside : Kind → ℕ → ℕ) (parent child : List (Option ℕ)) (s : Store)
    → HasObjects s parent
    → Counted outside s
    → length child ≡ length parent
    → (table : List (Option ℕ)) × (s' : Store) × (inherit parent child s ≡ some (table, s'))
      × Counted outside s'
      × Copies s s' parent table
unfolding inherit
inherit-Copies outside parent child s has c size =
    let r =
      copy_fds-Copied outside s s parent 0 parent (λ j. ap (λ n. get_or parent n none) (zero_add j))
        has (record { kept = λ p o e. e; longer = omega arith }) c in
    let none_left : drop (length (used_fds 0 parent)) child ≡ [] =
      rw (length-used_fds 0 parent, ← size) (drop_all child) in
    (
      r.table,
      r.after,
      rw (r.result, selective_inherit)
          (rw (none_left) (ap (λ t. some (t, r.after)) (append-nil r.table))),
      r.counted,
      r.copies,
    )
