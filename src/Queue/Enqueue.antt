-- ===== src/Queue/Enqueue.antt =====
-- `enqueue` of queue.c on the list of the nodes.
use unix_kernel.Base.{
  ℕ, ◌≡◌, refl, ◌≢◌, ◌∙◌, ap, sym, subst, false, not, none, some, [], ◌∷◌, arith, pos, minus_one,
  ◌==◌, if◌then◌else◌, ==_of_ne, ==_of_eq, Option,
}
use unix_kernel.Queue.Heap.{Ptr, null, Node, Heap, Ends, write, fill, set_prev, clear_node, when}
use unix_kernel.Queue.Run.{bind_lem, with_prev, fill_lem, set_prev_lem}
use unix_kernel.Queue.Links.{
  Cells, has_cell, last, cell, Linked, Linked-write, IsQueue, SameOutside, not-mem_of_free,
  last-ne-null,
}
use unix_kernel.Queue.Bridge.{relink_prev, with_prev_other}
use unix_kernel.Queue.{link_head, enqueue}

-- The heap once `n` stands in front of `xs`, and the new ends.
pub pushed : Heap → Ptr → ℕ → Ptr → Cells → Heap
pushed h n d head [] = write h n (some (cell d head null))
pushed h n d head (_ ∷ _) = with_prev (write h n (some (cell d head null))) head n

pub front : Ptr → Ends → Ends
front n q = record { head = n; tail = if q.tail == null then n else q.tail }

pub write_self : (h : Heap) (n : Ptr) (c : Option Node) → write h n c n ≡ c
unfolding write
write_self h n c = rw (==_of_eq n n refl)

pub write_other : (h : Heap) (n a : Ptr) (c : Option Node) → a ≢ n → write h n c a ≡ h a
unfolding write
write_other h n a c ne = rw (==_of_ne a n ne)

p_ne : (n p : Ptr) (e : ℕ) (xs : Cells) → has_cell n ((p, e) ∷ xs) ≡ false → p ≢ n
p_ne n p e xs out = ground arith

ne_head : (a p : Ptr) (e : ℕ) (xs : Cells) → has_cell a ((p, e) ∷ xs) ≡ false → a ≢ p
ne_head a p e xs out = ground arith

pub link_head_lem :
    (h : Heap) (n : Ptr) (d : ℕ) (old : Node) (q : Ends) (xs : Cells)
    → n ≢ null
    → h n ≡ some old
    → has_cell n xs ≡ false
    → IsQueue h q xs
    → link_head n d q h ≡ some (front n q, pushed h n d q.head xs)
unfolding link_head front pushed
link_head_lem h n d old q [] ne at out is = bind_lem (fill n _) _ (fill_lem h n ne at _) (
    bind_lem (when (not (q.head == null)) (set_prev q.head n)) _
      (rw (==_of_eq q.head null is.head_is) refl) refl)
link_head_lem h n d old q ((p, e) ∷ xs) ne at out is =
    bind_lem (fill n _) _ (fill_lem h n ne at _) (
      bind_lem (when (not (q.head == null)) (set_prev q.head n)) _
        (rw (is.head_is, ==_of_ne p null is.linked.0)
          (set_prev_lem _ p is.linked.0 (write_other h n p _ (p_ne n p e xs out) ∙ is.linked.1) n))
        refl)

pushed-Linked :
    (h : Heap) (n : Ptr) (d : ℕ) (q : Ends) (xs : Cells)
    → n ≢ null
    → has_cell n xs ≡ false
    → IsQueue h q xs
    → Linked (pushed h n d q.head xs) null null ((n, d) ∷ xs)
unfolding pushed
pushed-Linked h n d q [] ne out is =
    (ne, write_self h n _ ∙ ap (λ k. some (cell d k null)) is.head_is, tt)
pushed-Linked h n d q ((p, e) ∷ xs) ne out is =
    subst (λ k. Linked (pushed h n d k ((p, e) ∷ xs)) null null ((n, d) ∷ (p, e) ∷ xs))
      (sym is.head_is)
      (let g : Heap = write h n (some (cell d p null)) in
        (
          ne,
          with_prev_other g p n n (λ k. p_ne n p e xs out (sym k)) ∙ write_self h n _,
          relink_prev g null null n p e xs is.distinct
              (Linked-write h null null n (some (cell d p null)) ((p, e) ∷ xs) out is.linked),
        ))

pub pushed-SameOutside :
    (h : Heap) (n : Ptr) (d : ℕ) (q : Ends) (xs : Cells)
    → IsQueue h q xs
    → SameOutside ((n, d) ∷ xs) h (pushed h n d q.head xs)
unfolding pushed
pushed-SameOutside h n d q [] is a o = write_other h n a _ (ne_head a n d [] o)
pushed-SameOutside h n d q ((p, e) ∷ xs) is a o = rw is.head_is (
    with_prev_other _ p n a (ne_head a p e xs (ground arith))
    ∙ write_other h n a _ (ne_head a n d ((p, e) ∷ xs) o))

front_tail :
    (h : Heap) (n : Ptr) (q : Ends) (xs : Cells) → IsQueue h q xs → (front n q).tail ≡ last n xs
unfolding front
front_tail h n q [] is = rw (==_of_eq q.tail null is.tail_is)
front_tail h n q ((p, e) ∷ xs) is =
    rw (is.tail_is, ==_of_ne (last p xs) null (last-ne-null h null null p e xs is.linked))

pub pushed-IsQueue :
    (h : Heap) (n : Ptr) (d : ℕ) (q : Ends) (xs : Cells)
    → n ≢ null
    → has_cell n xs ≡ false
    → IsQueue h q xs
    → IsQueue (pushed h n d q.head xs) (front n q) ((n, d) ∷ xs)
pushed-IsQueue h n d q xs ne out is = record {
  head_is = unfold front in refl;
  tail_is = front_tail h n q xs is;
  linked = pushed-Linked h n d q xs ne out is;
  distinct = (out, is.distinct);
}

-- When `calloc` fails, enqueue answers -1 and changes nothing.
pub enqueue-null :
    (h : Heap) (d : ℕ) (q : Ends) → enqueue null d (some q) h ≡ some ((minus_one, some q), h)
unfolding enqueue
enqueue-null h d q = refl

-- Given the address of memory in no node, enqueue answers 0, makes it the first node, and writes
-- nowhere but there and in the queue's nodes.
pub enqueue-cons :
    {h : Heap} {q : Ends} {xs : Cells} (fresh : Ptr) (d : ℕ)
    → fresh ≢ null
    → h fresh ≡ none
    → IsQueue h q xs
    → (q' : Ends) × (g : Heap) × (enqueue fresh d (some q) h ≡ some ((pos 0, some q'), g))
      × IsQueue g q' ((fresh, d) ∷ xs)
      × SameOutside ((fresh, d) ∷ xs) h g
unfolding enqueue clear_node
enqueue-cons {h} {q} {xs} fresh d ne free is =
    let out = not-mem_of_free h null null fresh xs is.linked free in
    let cleared = write h fresh (some (cell 0 null null)) in
    let is' : IsQueue cleared q xs = record {
      head_is = is.head_is;
      tail_is = is.tail_is;
      linked = Linked-write h null null fresh _ xs out is.linked;
      distinct = is.distinct;
    } in
    (
      front fresh q,
      pushed cleared fresh d q.head xs,
      rw (==_of_ne fresh null ne) (
          bind_lem (link_head fresh d q) _
            (link_head_lem cleared fresh d _ q xs ne (write_self h fresh _) out is') refl),
      pushed-IsQueue cleared fresh d q xs ne out is',
      λ a o.
          pushed-SameOutside cleared fresh d q xs is' a o
          ∙ write_other h fresh a _ (ne_head a fresh d xs o),
    )
