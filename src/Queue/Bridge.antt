-- ===== src/Queue/Bridge.antt =====
-- Taking a piece out of a chain: its neighbours are made to point at one another.
use unix_kernel.Base.{
  ℕ, ◌≡◌, refl, ◌≢◌, ap, ◌∙◌, sym, true, false, some, [], ◌∷◌, ◌++◌, append-nil, arith, ==_of_eq,
  Bool-cases, inl, inr,
}
use unix_kernel.Queue.Heap.{Ptr, null, Node, Heap, write}
use unix_kernel.Queue.Run.{with_next, with_prev}
use unix_kernel.Queue.Links.{
  Cells, has_cell, Distinct, last, Linked, Linked-frame, Linked-append, has_cell-last,
  has_cell-append, SameOutside,
}

with_next_self :
    (h : Heap) (p q : Ptr) (e : Node)
    → h p ≡ some e
    → with_next h p q p ≡ some (record e { next = q })
unfolding with_next write
with_next_self h p q e at = ground arith

pub with_next_other : (h : Heap) (p q a : Ptr) → a ≢ p → with_next h p q a ≡ h a
unfolding with_next write
with_next_other h p q a ne = ground arith

with_prev_self :
    (h : Heap) (p q : Ptr) (e : Node)
    → h p ≡ some e
    → with_prev h p q p ≡ some (record e { prev = q })
unfolding with_prev write
with_prev_self h p q e at = ground arith

pub with_prev_other : (h : Heap) (p q a : Ptr) → a ≢ p → with_prev h p q a ≡ h a
unfolding with_prev write
with_prev_other h p q a ne = ground arith

pub ne_of_has : (xs : Cells) (a b : Ptr) → has_cell a xs ≡ false → has_cell b xs ≡ true → a ≢ b
ne_of_has xs a b out in_xs e = ground (arith, ap (λ c. has_cell c xs) e)

-- The last node of a chain can be made to point elsewhere.
pub relink_next :
    (h : Heap) (pv nx nx' p : Ptr) (d : ℕ) (xs : Cells)
    → Distinct ((p, d) ∷ xs)
    → Linked h pv nx ((p, d) ∷ xs)
    → Linked (with_next h (last p xs) nx') pv nx' ((p, d) ∷ xs)
relink_next h pv nx nx' p d [] u l = (l.0, with_next_self h p nx' _ l.1, tt)
relink_next h pv nx nx' p d ((a, e) ∷ xs) u l = (
  l.0,
  with_next_other h (last a xs) nx' p
        (ne_of_has ((a, e) ∷ xs) p (last a xs) u.0 (has_cell-last p a e xs))
      ∙ l.1,
  relink_next h p nx nx' a e xs u.1 l.2,
)

-- The first node of a chain can be made to point back elsewhere.
pub relink_prev :
    (h : Heap) (pv nx pv' p : Ptr) (d : ℕ) (xs : Cells)
    → Distinct ((p, d) ∷ xs)
    → Linked h pv nx ((p, d) ∷ xs)
    → Linked (with_prev h p pv') pv' nx ((p, d) ∷ xs)
relink_prev h pv nx pv' p d xs u l = (
  l.0,
  with_prev_self h p pv' _ l.1,
  Linked-frame h p nx xs (λ a i. with_prev_other h p pv' a (λ e. ne_of_has xs p a u.0 i (sym e)))
      l.2,
)

-- No address of the one list is in the other.
abbrev pub Apart : Cells → Cells → Type 0
Apart xs ys = (a : Ptr) → has_cell a xs ≡ true → has_cell a ys ≡ false

pub has_cell-head : (b : Ptr) (f : ℕ) (zs : Cells) → has_cell b ((b, f) ∷ zs) ≡ true
has_cell-head b f zs = rw (==_of_eq b b refl)

pub Apart-back : (b : Ptr) (f : ℕ) (ys zs : Cells) → Apart ys ((b, f) ∷ zs) → has_cell b ys ≡ false
Apart-back b f ys zs apart = elim (Bool-cases (has_cell b ys)) [
  | inl i ↦ cc (sym (has_cell-head b f zs) ∙ apart b i)
  | inr o ↦ o
]

pub Linked-with_next :
    (h : Heap) (pv nx p q : Ptr) (xs : Cells)
    → has_cell p xs ≡ false
    → Linked h pv nx xs
    → Linked (with_next h p q) pv nx xs
Linked-with_next h pv nx p q xs out l =
    Linked-frame h pv nx xs (λ a i. with_next_other h p q a (λ e. ne_of_has xs p a out i (sym e))) l

pub Linked-with_prev :
    (h : Heap) (pv nx p q : Ptr) (xs : Cells)
    → has_cell p xs ≡ false
    → Linked h pv nx xs
    → Linked (with_prev h p q) pv nx xs
Linked-with_prev h pv nx p q xs out l =
    Linked-frame h pv nx xs (λ a i. with_prev_other h p q a (λ e. ne_of_has xs p a out i (sym e))) l

-- The heap once the nodes before and behind a gap point at one another.
unfoldable pub bridged : Heap → Cells → Cells → Heap
bridged h [] [] = h
bridged h [] ((b, f) ∷ zs) = with_prev h b null
bridged h ((a, e) ∷ ys) [] = with_next h (last a ys) null
bridged h ((a, e) ∷ ys) ((b, f) ∷ zs) = with_prev (with_next h (last a ys) b) b (last a ys)

-- What was linked up to a node and on from it is then one chain.
pub bridged-Linked :
    (h : Heap) (n : Ptr) (ys zs : Cells)
    → Distinct ys
    → Distinct zs
    → Apart ys zs
    → Linked h null n ys
    → Linked h n null zs
    → Linked (bridged h ys zs) null null (ys ++ zs)
unfolding bridged
bridged-Linked h n [] [] uy uz apart l r = tt
bridged-Linked h n [] ((b, f) ∷ zs) uy uz apart l r = relink_prev h n null null b f zs uz r
bridged-Linked h n ((a, e) ∷ ys) [] uy uz apart l r =
    rw append-nil (relink_next h null n null a e ys uy l)
bridged-Linked h n ((a, e) ∷ ys) ((b, f) ∷ zs) uy uz apart l r =
    Linked-append _ null null ((a, e) ∷ ys) ((b, f) ∷ zs)
      (Linked-with_prev _ null b b (last a ys) ((a, e) ∷ ys) (Apart-back b f ((a, e) ∷ ys) zs apart)
        (relink_next h null n b a e ys uy l))
      (relink_prev _ n null (last a ys) b f zs uz (
        Linked-with_next h n null (last a ys) b ((b, f) ∷ zs)
          (apart (last a ys) (has_cell-last null a e ys)) r))

pub bridged-SameOutside : (h : Heap) (ys zs : Cells) → SameOutside (ys ++ zs) h (bridged h ys zs)
unfolding bridged
bridged-SameOutside h [] [] a o = refl
bridged-SameOutside h [] ((b, f) ∷ zs) a o = ground (arith, with_prev_other h b null a)
bridged-SameOutside h ((c, e) ∷ ys) [] a o = with_next_other h (last c ys) null a (
    ne_of_has ((c, e) ∷ ys) a (last c ys) (ground (arith, has_cell-append a ((c, e) ∷ ys) []))
      (has_cell-last null c e ys))
bridged-SameOutside h ((c, e) ∷ ys) ((b, f) ∷ zs) a o =
    let out = has_cell-append a ((c, e) ∷ ys) ((b, f) ∷ zs) in
    with_prev_other (with_next h (last c ys) b) b (last c ys) a (ground (arith, out))
    ∙ with_next_other h (last c ys) b a
        (ne_of_has ((c, e) ∷ ys) a (last c ys) (ground (arith, out)) (has_cell-last null c e ys))
