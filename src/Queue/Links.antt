-- ===== src/Queue/Links.antt =====
-- What a chain of nodes stands for: `Linked h pv nx xs` says that the nodes at the addresses of
-- `xs` hold its data and are linked in its order both ways, between the neighbours `pv` and `nx`.
use unix_kernel.Base.{
  ℕ, ◌≡◌, refl, ◌≢◌, Bool, true, false, ◌||◌, Option, none, some, List, [], ◌∷◌, ◌++◌, arith, ◌==◌,
}
use unix_kernel.Queue.Heap.{Ptr, null, Node, Heap, Ends, write}

-- Address and data of each node, from the head to the tail.
abbrev pub Cells : Type 0
Cells = List (Ptr × ℕ)

abbrev pub has_cell : Ptr → Cells → Bool
has_cell a [] = false
has_cell a ((p, _) ∷ xs) = (a == p) || has_cell a xs

abbrev pub Distinct : Cells → Type 0
Distinct [] = Unit {0}
Distinct ((p, _) ∷ xs) = (has_cell p xs ≡ false) × Distinct xs

-- The address at the front, or what follows the empty chain.
abbrev pub first : Cells → Ptr → Ptr
first [] nx = nx
first ((p, _) ∷ _) nx = p

-- The address at the back, or what stands before the empty chain.
abbrev pub last : Ptr → Cells → Ptr
last pv [] = pv
last pv ((p, _) ∷ xs) = last p xs

abbrev pub cell : ℕ → Ptr → Ptr → Node
cell d nx pv = record { payload = d; next = nx; prev = pv }

abbrev pub Linked : Heap → Ptr → Ptr → Cells → Type 0
Linked h pv nx [] = Unit {0}
Linked h pv nx ((p, d) ∷ xs) =
    (p ≢ null) × (h p ≡ some (cell d (first xs nx) pv)) × Linked h p nx xs

-- The queue at `q` holds the cells `xs`.
pub record IsQueue (h : Heap) (q : Ends) (xs : Cells) : Type 0 where
  pub head_is : q.head ≡ first xs null
  pub tail_is : q.tail ≡ last null xs
  pub linked : Linked h null null xs
  pub distinct : Distinct xs

-- `g` differs from `h` at most at the addresses of `xs`.
abbrev pub SameOutside : Cells → Heap → Heap → Type 0
SameOutside xs h g = (a : Ptr) → has_cell a xs ≡ false → g a ≡ h a

pub first-append : (xs ys : Cells) (nx : Ptr) → first (xs ++ ys) nx ≡ first xs (first ys nx)
first-append [] ys nx = refl
first-append (_ ∷ xs) ys nx = refl

pub last-append : (pv : Ptr) (xs ys : Cells) → last pv (xs ++ ys) ≡ last (last pv xs) ys
last-append pv [] ys = refl
last-append pv ((p, _) ∷ xs) ys = last-append p xs ys

pub has_cell-append :
    (a : Ptr) (xs ys : Cells) → has_cell a (xs ++ ys) ≡ (has_cell a xs || has_cell a ys)
has_cell-append a [] ys = refl
has_cell-append a ((p, _) ∷ xs) ys = ground (arith, has_cell-append a xs ys)

pub has_cell-last : (pv p : Ptr) (d : ℕ) (xs : Cells) → has_cell (last p xs) ((p, d) ∷ xs) ≡ true
has_cell-last pv p d [] = ground arith
has_cell-last pv p d ((a, e) ∷ xs) = ground (arith, has_cell-last p a e xs)

module _ (h : Heap) where
  -- A chain survives what spares its addresses.
  pub Linked-frame :
      {g : Heap} (pv nx : Ptr) (xs : Cells)
      → ((a : Ptr) → has_cell a xs ≡ true → g a ≡ h a)
      → Linked h pv nx xs
      → Linked g pv nx xs
  Linked-frame pv nx [] same l = tt
  Linked-frame {g} pv nx ((p, d) ∷ xs) same l =
      (l.0, ground (arith, same p, l.1), Linked-frame p nx xs (λ a i. same a (ground arith)) l.2)

  pub Linked-write :
      (pv nx a : Ptr) (c : Option Node) (xs : Cells)
      → has_cell a xs ≡ false
      → Linked h pv nx xs
      → Linked (write h a c) pv nx xs
  unfolding write
  Linked-write pv nx a c xs out l = Linked-frame pv nx xs (λ b i. ground arith) l

  pub Linked-left :
      (pv nx : Ptr) (xs ys : Cells) → Linked h pv nx (xs ++ ys) → Linked h pv (first ys nx) xs
  Linked-left pv nx [] ys l = tt
  Linked-left pv nx ((p, d) ∷ xs) ys l =
      (l.0, ground (arith, l.1, first-append xs ys nx), Linked-left p nx xs ys l.2)

  pub Linked-right :
      (pv nx : Ptr) (xs ys : Cells) → Linked h pv nx (xs ++ ys) → Linked h (last pv xs) nx ys
  Linked-right pv nx [] ys l = l
  Linked-right pv nx ((p, d) ∷ xs) ys l = Linked-right p nx xs ys l.2

  pub Linked-append :
      (pv nx : Ptr) (xs ys : Cells)
      → Linked h pv (first ys nx) xs
      → Linked h (last pv xs) nx ys
      → Linked h pv nx (xs ++ ys)
  Linked-append pv nx [] ys l r = r
  Linked-append pv nx ((p, d) ∷ xs) ys l r =
      (l.0, ground (arith, l.1, first-append xs ys nx), Linked-append p nx xs ys l.2 r)

  -- A linked node is allocated.
  pub not-mem_of_free :
      (pv nx a : Ptr) (xs : Cells) → Linked h pv nx xs → h a ≡ none → has_cell a xs ≡ false
  not-mem_of_free pv nx a [] l free = refl
  not-mem_of_free pv nx a ((p, d) ∷ xs) l free = ground (arith, not-mem_of_free p nx a xs l.2, l.1)

  pub last-ne-null :
      (pv nx p : Ptr) (d : ℕ) (xs : Cells) → Linked h pv nx ((p, d) ∷ xs) → last p xs ≢ null
  last-ne-null pv nx p d [] l = l.0
  last-ne-null pv nx p d ((a, e) ∷ xs) l = last-ne-null p nx a e xs l.2
