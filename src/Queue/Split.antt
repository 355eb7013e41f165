-- ===== src/Queue/Split.antt =====
-- A queue seen from one of its nodes: what stands before it and behind it.
use unix_kernel.Base.{ℕ, ◌≡◌, ◌≢◌, ◌∙◌, false, some, [], ◌∷◌, ◌++◌, arith}
use unix_kernel.Queue.Heap.{Ptr, null, Heap, Ends}
use unix_kernel.Queue.Links.{
  Cells, has_cell, Distinct, first, last, cell, Linked, IsQueue, first-append, last-append,
  has_cell-append, Linked-left, Linked-right,
}
use unix_kernel.Queue.Bridge.{Apart, has_cell-head, Apart-back}

pub Distinct-left : (xs ys : Cells) → Distinct (xs ++ ys) → Distinct xs
Distinct-left [] ys u = tt
Distinct-left ((p, d) ∷ xs) ys u =
    (ground (arith, u.0, has_cell-append p xs ys), Distinct-left xs ys u.1)

pub Distinct-right : (xs ys : Cells) → Distinct (xs ++ ys) → Distinct ys
Distinct-right [] ys u = u
Distinct-right (_ ∷ xs) ys u = Distinct-right xs ys u.1

pub Distinct-Apart : (xs ys : Cells) → Distinct (xs ++ ys) → Apart xs ys
Distinct-Apart [] ys u a i = cc
Distinct-Apart ((p, d) ∷ xs) ys u a i =
    ground (arith, u.0, has_cell-append p xs ys, Distinct-Apart xs ys u.1 a)

pub Distinct-append :
    (xs ys : Cells) → Distinct xs → Distinct ys → Apart xs ys → Distinct (xs ++ ys)
Distinct-append [] ys ux uy apart = uy
Distinct-append ((p, d) ∷ xs) ys ux uy apart = (
  ground (arith, ux.0, has_cell-append p xs ys, apart p (has_cell-head p d xs)),
  Distinct-append xs ys ux.1 uy (λ a i. apart a (ground arith)),
)

-- `n` holds `d` between the chains `ys` and `zs`.
pub record Around (h : Heap) (q : Ends) (n : Ptr) (d : ℕ) (ys zs : Cells) : Type 0 where
  pub head_is : q.head ≡ first ys n
  pub tail_is : q.tail ≡ last n zs
  pub ne_null : n ≢ null
  pub holds : h n ≡ some (cell d (first zs null) (last null ys))
  pub left : Linked h null n ys
  pub right : Linked h n null zs
  pub left_distinct : Distinct ys
  pub right_distinct : Distinct zs
  pub apart : Apart ys zs
  pub not_left : has_cell n ys ≡ false
  pub not_right : has_cell n zs ≡ false

pub IsQueue-Around :
    {h : Heap} {q : Ends} (n : Ptr) (d : ℕ) (ys zs : Cells)
    → IsQueue h q (ys ++ (n, d) ∷ zs)
    → Around h q n d ys zs
IsQueue-Around {h} {q} n d ys zs is =
    let on = Linked-right h null null ys ((n, d) ∷ zs) is.linked in
    let both = Distinct-Apart ys ((n, d) ∷ zs) is.distinct in
    record {
      head_is = is.head_is ∙ first-append ys ((n, d) ∷ zs) null;
      tail_is = is.tail_is ∙ last-append null ys ((n, d) ∷ zs);
      ne_null = on.0;
      holds = on.1;
      left = Linked-left h null null ys ((n, d) ∷ zs) is.linked;
      right = on.2;
      left_distinct = Distinct-left ys ((n, d) ∷ zs) is.distinct;
      right_distinct = (Distinct-right ys ((n, d) ∷ zs) is.distinct).1;
      apart = λ a i. ground (arith, both a i);
      not_left = Apart-back n d ys zs both;
      not_right = (Distinct-right ys ((n, d) ∷ zs) is.distinct).0;
    }
