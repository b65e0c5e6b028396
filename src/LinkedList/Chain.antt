-- ===== src/LinkedList/Chain.antt =====
-- When the memory of `basekernel/kernel/list.c` holds a list of nodes.
use stage_os.Base.{ℕ, ◌≡◌, ◌≢◌, refl, ap, sym, ◌∙◌, true, List, [], ◌∷◌, length, ==-ne}
use stage_os.LinkedList.{Node, Store, update}

abbrev pub NotIn : ℕ → List ℕ → Type 0
NotIn n [] = Unit {0}
NotIn n (x ∷ xs) = (n ≢ x) × NotIn n xs

-- Nodes that differ and are not the null pointer
abbrev pub AreNodes : List ℕ → Type 0
AreNodes [] = Unit {0}
AreNodes (x ∷ xs) = (x ≢ 0) × NotIn x xs × AreNodes xs

abbrev pub first : List ℕ → ℕ
first [] = 0
first (x ∷ xs) = x

-- The last node, or `p` before an empty list
abbrev pub last : ℕ → List ℕ → ℕ
last p [] = p
last p (x ∷ xs) = last x xs

-- The nodes are linked in this order, behind node `p` and before node `q`.
abbrev pub Linked : (ℕ → Node) → (p q : ℕ) → List ℕ → Type 0
Linked h p q [] = Unit {0}
Linked h p q (x ∷ []) = ((h x).prev ≡ p) × ((h x).next ≡ q) × ((h x).listed ≡ true)
Linked h p q (x ∷ y ∷ xs) =
    ((h x).prev ≡ p) × ((h x).next ≡ y) × ((h x).listed ≡ true) × Linked h x q (y ∷ xs)

-- The list holds the nodes `xs`, in this order.
pub record Holds (s : Store) (xs : List ℕ) : Type 0 where
  pub nodes : AreNodes xs
  pub linked : Linked s.node 0 0 xs
  pub starts : s.head ≡ first xs
  pub ends : s.tail ≡ last 0 xs
  pub counted : s.size ≡ length xs

pub update_ne : (h : ℕ → Node) (n : ℕ) (v : Node) (x : ℕ) → n ≢ x → update h n v x ≡ h x
update_ne h n v x ne = rw (==-ne x n (λ e. ne (sym e))) refl

-- A change of a node outside keeps the links.
pub Linked-update :
    (h : ℕ → Node) (n : ℕ) (v : Node) (p q : ℕ) (xs : List ℕ)
    → NotIn n xs
    → Linked h p q xs
    → Linked (update h n v) p q xs
Linked-update h n v p q [] out l = tt
Linked-update h n v p q (x ∷ []) out l = rw (update_ne h n v x out.0) l
Linked-update h n v p q (x ∷ y ∷ xs) out l =
    let same = update_ne h n v x out.0 in
    (
      ap (λ a. a.prev) same ∙ l.0,
      ap (λ a. a.next) same ∙ l.1,
      ap (λ a. a.listed) same ∙ l.2,
      Linked-update h n v x q (y ∷ xs) out.1 l.3,
    )
