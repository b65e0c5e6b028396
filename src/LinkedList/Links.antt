-- ===== src/LinkedList/Links.antt =====
-- Links between the nodes of `basekernel/kernel/list.c`: a changed node, and a node behind the last.
use stage_os.Base.{ℕ, ◌≡◌, ◌≢◌, refl, ap, sym, ◌∙◌, true, List, [], ◌∷◌, ◌++◌, ==-refl}
use stage_os.LinkedList.{Node, update}
use stage_os.LinkedList.Chain.{NotIn, AreNodes, last, Linked, update_ne, Linked-update}

-- The first node gets a new predecessor.
pub Linked-set_prev :
    (h : ℕ → Node) (p q n x : ℕ) (xs : List ℕ)
    → NotIn x xs
    → Linked h p q (x ∷ xs)
    → Linked (update h x (record (h x) { prev = n })) n q (x ∷ xs)
Linked-set_prev h p q n x [] out l = rw (==-refl x) (refl, l.1, l.2)
Linked-set_prev h p q n x (y ∷ xs) out l =
    let here = ==-refl x in
    (
      rw here refl,
      rw here l.1,
      rw here l.2,
      Linked-update h x (record (h x) { prev = n }) x q (y ∷ xs) out l.3,
    )

last-ne : (x y : ℕ) (xs : List ℕ) → NotIn x (y ∷ xs) → x ≢ last y xs
last-ne x y [] out = out.0
last-ne x y (z ∷ xs) out = last-ne x z xs out.1

NotIn-last : (n y : ℕ) (xs : List ℕ) → NotIn n (y ∷ xs) → n ≢ last y xs
NotIn-last n y [] out = out.0
NotIn-last n y (z ∷ xs) out = NotIn-last n z xs out.1

-- A node is linked behind the last one.
pub Linked-snoc :
    (h : ℕ → Node) (p n x : ℕ) (xs : List ℕ)
    → AreNodes (x ∷ xs)
    → NotIn n (x ∷ xs)
    → Linked h p 0 (x ∷ xs)
    → (h n).prev ≡ last x xs
    → (h n).next ≡ 0
    → (h n).listed ≡ true
    → Linked (update h (last x xs) (record (h (last x xs)) { next = n })) p 0 (x ∷ xs ++ n ∷ [])
Linked-snoc h p n x [] nodes out l before behind there =
    let other = update_ne h x (record (h x) { next = n }) n (λ e. out.0 (sym e)) in
    let here = ==-refl x in
    (
      rw here l.0,
      rw here refl,
      rw here l.2,
      (
        ap (λ a. a.prev) other ∙ before,
        ap (λ a. a.next) other ∙ behind,
        ap (λ a. a.listed) other ∙ there,
      ),
    )
Linked-snoc h p n x (y ∷ xs) nodes out l before behind there =
    let other =
      update_ne h (last y xs) (record (h (last y xs)) { next = n }) x
        (λ e. last-ne x y xs nodes.1 (sym e)) in
    (
      ap (λ a. a.prev) other ∙ l.0,
      ap (λ a. a.next) other ∙ l.1,
      ap (λ a. a.listed) other ∙ l.2,
      Linked-snoc h x n y xs nodes.2 out.1 l.3 before behind there,
    )

pub last-nz : (x : ℕ) (xs : List ℕ) → AreNodes (x ∷ xs) → last x xs ≢ 0
last-nz x [] nodes = nodes.0
last-nz x (y ∷ xs) nodes = last-nz y xs nodes.2

NotIn-snoc : (x n : ℕ) (xs : List ℕ) → NotIn x xs → x ≢ n → NotIn x (xs ++ n ∷ [])
NotIn-snoc x n [] out ne = (ne, tt)
NotIn-snoc x n (y ∷ xs) out ne = (out.0, NotIn-snoc x n xs out.1 ne)

pub AreNodes-snoc :
    (n : ℕ) (xs : List ℕ) → AreNodes xs → n ≢ 0 → NotIn n xs → AreNodes (xs ++ n ∷ [])
AreNodes-snoc n [] nodes nz out = (nz, tt, tt)
AreNodes-snoc n (x ∷ xs) nodes nz out =
    (nodes.0, NotIn-snoc x n xs nodes.1 (λ e. out.0 (sym e)), AreNodes-snoc n xs nodes.2 nz out.1)

pub last-snoc : (p n : ℕ) (xs : List ℕ) → last p (xs ++ n ∷ []) ≡ n
last-snoc p n [] = refl
last-snoc p n (x ∷ xs) = last-snoc x n xs
