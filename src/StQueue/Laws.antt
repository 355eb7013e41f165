-- ===== src/StQueue/Laws.antt =====
-- st_enqueue, st_dequeue and st_queue_delete of st_queue.c on the list of the nodes.
use unix_kernel.Base.{
  ℕ, ◌<◌, ◌≡◌, refl, ◌≢◌, ◌∙◌, ap, sym, subst, append-nil, Bool, false, arith, some, [], ◌∷◌, ◌++◌,
  pos, ==_of_ne, length, inl, inr,
}
use unix_kernel.Queue.Heap.{Ptr, null, Node, Heap, Ends, load}
use unix_kernel.Queue.Run.{bind_lem, load_lem}
use unix_kernel.Queue.Links.{Cells, has_cell, IsQueue, SameOutside, has_cell-append}
use unix_kernel.Queue.Bridge.{bridged, bridged-SameOutside}
use unix_kernel.Queue.Enqueue.{link_head_lem, pushed, front, pushed-IsQueue, pushed-SameOutside}
use unix_kernel.Queue.Split.{Around, IsQueue-Around}
use unix_kernel.Queue.Unlink.{joined, joined-IsQueue, unlink_lem, unlink_tail_lem, bridged_at}
use unix_kernel.Queue.Search.{find_data, search_from_lem}
use unix_kernel.Queue.Dequeue.{erase_first, find_cases}
use unix_kernel.Queue.{link_head, unlink_tail, unlink, search_from}
use unix_kernel.StQueue.{st_enqueue, st_dequeue, st_queue_delete}

-- st_enqueue of a node that is allocated and in no cell of the queue answers 0 and puts it in
-- front; it writes only at that node and at the queue's nodes.
pub st_enqueue-cons :
    {h : Heap} {q : Ends} {xs : Cells} (n : Ptr) (d : ℕ) {old : Node}
    → n ≢ null
    → h n ≡ some old
    → has_cell n xs ≡ false
    → IsQueue h q xs
    → (q' : Ends) × (g : Heap) × (st_enqueue n d (some q) h ≡ some ((pos 0, some q'), g))
      × IsQueue g q' ((n, d) ∷ xs)
      × SameOutside ((n, d) ∷ xs) h g
unfolding st_enqueue
st_enqueue-cons {h} {q} {xs} n d ne at out is = (
  front n q,
  pushed h n d q.head xs,
  rw (==_of_ne n null ne)
      (bind_lem (link_head n d q) _ (link_head_lem h n d _ q xs ne at out is) refl),
  pushed-IsQueue h n d q xs ne out is,
  pushed-SameOutside h n d q xs is,
)

-- A node that was unlinked is left as it was; the others' heap changes only at their nodes.
SameOutside-bridged :
    (h : Heap) (n : Ptr) (d : ℕ) (ys zs : Cells)
    → SameOutside (ys ++ (n, d) ∷ zs) h (bridged h ys zs)
SameOutside-bridged h n d ys zs a o =
    bridged-SameOutside h ys zs a
      (ground (arith, has_cell-append a ys ((n, d) ∷ zs), has_cell-append a ys zs))

-- st_dequeue takes the node at the tail: it returns its data and leaves the queue of the others in
-- their order; the node stays allocated, so that it can be enqueued again.
pub st_dequeue-snoc :
    {h : Heap} {q : Ends} (n : Ptr) (d : ℕ) (ys : Cells)
    → IsQueue h q (ys ++ (n, d) ∷ [])
    → (q' : Ends) × (g : Heap) × (st_dequeue (some q) h ≡ some ((d, some q'), g))
      × IsQueue g q' ys
      × (g n ≡ h n)
      × SameOutside (ys ++ (n, d) ∷ []) h g
unfolding st_dequeue
st_dequeue-snoc {h} {q} n d ys is =
    let at = IsQueue-Around n d ys [] is in
    let tail_ne = λ (e : q.tail ≡ null). at.ne_null (sym at.tail_is ∙ e) in
    let tail_at = ap (bridged h ys []) at.tail_is ∙ bridged_at h q n d ys [] at in
    (
      joined ys [],
      bridged h ys [],
      rw (==_of_ne q.tail null tail_ne) (
          bind_lem (unlink_tail q) _ (unlink_tail_lem h q n d ys at)
            (bind_lem (load q.tail) _ (load_lem (bridged h ys []) q.tail tail_ne tail_at) refl)),
      subst (IsQueue (bridged h ys []) (joined ys [])) (append-nil ys)
          (joined-IsQueue h q n d ys [] at),
      bridged_at h q n d ys [] at ∙ sym at.holds,
      SameOutside-bridged h n d ys [],
    )

delete_run :
    (h : Heap) (q : Ends) (n : Ptr) (d : ℕ) (ys zs : Cells) (fuel : ℕ) (test : ℕ → Bool)
    → Around h q n d ys zs
    → search_from fuel test q.head h ≡ some (n, h)
    → st_queue_delete fuel test (some q) h ≡ some ((d, some (joined ys zs)), bridged h ys zs)
unfolding st_queue_delete
delete_run h q n d ys zs fuel test at found = bind_lem (search_from fuel test q.head) _ found (
    rw (==_of_ne n null at.ne_null) (
      bind_lem (load n) _ (load_lem h n at.ne_null at.holds)
        (bind_lem (unlink n q) _ (unlink_lem h q n d ys zs at) refl)))

absent_run :
    (h : Heap) (q : Ends) (fuel : ℕ) (test : ℕ → Bool)
    → search_from fuel test q.head h ≡ some (null, h)
    → st_queue_delete fuel test (some q) h ≡ some ((null, some q), h)
unfolding st_queue_delete
absent_run h q fuel test found = bind_lem (search_from fuel test q.head) _ found refl

-- With more fuel than nodes st_queue_delete ends without a fault: it returns the data of the first
-- node from the head on that passes the test, or NULL if none does; the queue then holds the
-- other nodes in their order; nothing outside the queue's nodes is written.
pub st_queue_delete_lem :
    {h : Heap} {q : Ends} {xs : Cells} (fuel : ℕ) (test : ℕ → Bool)
    → IsQueue h q xs
    → length xs < fuel
    → (q' : Ends) × (g : Heap) × (st_queue_delete fuel test (some q) h
        ≡ some ((find_data test xs, some q'), g))
      × IsQueue g q' (erase_first test xs)
      × SameOutside xs h g
st_queue_delete_lem {h} {q} {xs} fuel test is f =
    let search =
      ap (λ p. search_from fuel test p h) is.head_is
      ∙ search_from_lem h fuel test null xs f is.linked in
    elim (find_cases test xs) [
      | inl (a, b, c) ↦ (
        q,
        h,
        absent_run h q fuel test (search ∙ ap (λ p. some (p, h)) a)
            ∙ ap (λ k. some ((k, some q), h)) (sym b),
        rw c is,
        λ a o. refl,
      )
      | inr found ↦
          let at =
            IsQueue-Around found.node found.payload found.before found.after
              (subst (IsQueue h q) found.splits is) in
          (
            joined found.before found.after,
            bridged h found.before found.after,
            rw found.payload_is (
                delete_run h q found.node found.payload found.before found.after fuel test at
                  (search ∙ ap (λ p. some (p, h)) found.node_is)),
            rw found.rest_is (joined-IsQueue h q _ _ found.before found.after at),
            rw found.splits
                (SameOutside-bridged h found.node found.payload found.before found.after),
          )
    ]
