-- ===== src/Queue/Dequeue.antt =====
-- `dequeue`, `peek` and `queue_delete` of queue.c on the list of the nodes.
use unix_kernel.Base.{
  ℕ, ◌<◌, ◌≡◌, refl, ◌⊎◌, ◌∙◌, ap, sym, subst, append-nil, Bool, false, none, some, [], ◌∷◌, ◌++◌,
  arith, if◌then◌else◌, ==_of_ne, ==_of_eq, length, Bool-cases, inl, inr,
}
use unix_kernel.Queue.Heap.{Ptr, null, Heap, Ends, load, write, free_node}
use unix_kernel.Queue.Run.{bind_lem, load_lem, free_node_lem}
use unix_kernel.Queue.Links.{Cells, IsQueue, SameOutside, has_cell-append}
use unix_kernel.Queue.Bridge.{bridged, bridged-SameOutside}
use unix_kernel.Queue.Split.{Around, IsQueue-Around}
use unix_kernel.Queue.Unlink.{joined, unlink_lem, unlink_tail_lem, bridged_at, freed-IsQueue}
use unix_kernel.Queue.Search.{find_cell, find_data, search_from_lem}
use unix_kernel.Queue.{dequeue, peek, unlink, unlink_tail, search_from, queue_delete}

-- The heap once the node `n` between `ys` and `zs` is unlinked and freed.
taken : Heap → Ptr → Cells → Cells → Heap
taken h n ys zs = write (bridged h ys zs) n none

taken-SameOutside :
    (h : Heap) (n : Ptr) (d : ℕ) (ys zs : Cells)
    → SameOutside (ys ++ (n, d) ∷ zs) h (taken h n ys zs)
unfolding taken write
taken-SameOutside h n d ys zs a o = ground (
  arith,
  has_cell-append a ys ((n, d) ∷ zs),
  has_cell-append a ys zs,
  bridged-SameOutside h ys zs a,
)

taken_at : (h : Heap) (n : Ptr) (ys zs : Cells) → taken h n ys zs n ≡ none
unfolding taken write
taken_at h n ys zs = rw (==_of_eq n n refl)

dequeue_run :
    (h : Heap) (q : Ends) (n : Ptr) (d : ℕ) (ys : Cells)
    → Around h q n d ys []
    → dequeue (some q) h ≡ some ((d, some (joined ys [])), taken h n ys [])
unfolding dequeue taken
dequeue_run h q n d ys at =
    let tail_ne = λ (e : q.tail ≡ null). at.ne_null (sym at.tail_is ∙ e) in
    let tail_at = ap (bridged h ys []) at.tail_is ∙ bridged_at h q n d ys [] at in
    rw (==_of_ne q.tail null tail_ne) (
      bind_lem (unlink_tail q) _ (unlink_tail_lem h q n d ys at) (
        bind_lem (load q.tail) _ (load_lem (bridged h ys []) q.tail tail_ne tail_at) (
          bind_lem (free_node q.tail) _ (free_node_lem (bridged h ys []) q.tail tail_ne tail_at) (
            ap (λ p. some ((d, some (joined ys [])), write (bridged h ys []) p none)) at.tail_is))))

-- dequeue takes the node at the tail: it returns its data, frees it, leaves the queue of the
-- others in their order, and writes nowhere outside the queue's nodes.
pub dequeue-snoc :
    {h : Heap} {q : Ends} (n : Ptr) (d : ℕ) (ys : Cells)
    → IsQueue h q (ys ++ (n, d) ∷ [])
    → (q' : Ends) × (g : Heap) × (dequeue (some q) h ≡ some ((d, some q'), g))
      × IsQueue g q' ys
      × (g n ≡ none)
      × SameOutside (ys ++ (n, d) ∷ []) h g
dequeue-snoc {h} {q} n d ys is =
    let at = IsQueue-Around n d ys [] is in
    (
      joined ys [],
      taken h n ys [],
      dequeue_run h q n d ys at,
      subst (IsQueue (taken h n ys []) (joined ys [])) (append-nil ys)
          (unfold taken in freed-IsQueue h q n d ys [] at),
      taken_at h n ys [],
      taken-SameOutside h n d ys [],
    )

-- The cells without the first whose data passes the test.
abbrev pub erase_first : (ℕ → Bool) → Cells → Cells
erase_first test [] = []
erase_first test ((p, d) ∷ xs) = if test d then xs else (p, d) ∷ erase_first test xs

delete_run :
    (h : Heap) (q : Ends) (n : Ptr) (d : ℕ) (ys zs : Cells) (fuel : ℕ) (test : ℕ → Bool)
    → Around h q n d ys zs
    → search_from fuel test q.head h ≡ some (n, h)
    → queue_delete fuel test (some q) h ≡ some ((d, some (joined ys zs)), taken h n ys zs)
unfolding queue_delete taken
delete_run h q n d ys zs fuel test at found = bind_lem (search_from fuel test q.head) _ found (
    rw (==_of_ne n null at.ne_null) (
      bind_lem (load n) _ (load_lem h n at.ne_null at.holds) (
        bind_lem (unlink n q) _ (unlink_lem h q n d ys zs at) (
          bind_lem (free_node n) _ (free_node_lem _ n at.ne_null (bridged_at h q n d ys zs at))
            refl))))

absent_run :
    (h : Heap) (q : Ends) (fuel : ℕ) (test : ℕ → Bool)
    → search_from fuel test q.head h ≡ some (null, h)
    → queue_delete fuel test (some q) h ≡ some ((null, some q), h)
unfolding queue_delete
absent_run h q fuel test found = bind_lem (search_from fuel test q.head) _ found refl

-- Where the first cell that passes the test stands.
pub record Found (test : ℕ → Bool) (xs : Cells) : Type 0 where
  pub before : Cells
  pub after : Cells
  pub node : Ptr
  pub payload : ℕ
  pub splits : xs ≡ before ++ (node, payload) ∷ after
  pub node_is : find_cell test xs ≡ node
  pub payload_is : find_data test xs ≡ payload
  pub rest_is : erase_first test xs ≡ before ++ after

pub Found-cons :
    (test : ℕ → Bool) (p : Ptr) (d : ℕ) {xs : Cells}
    → test d ≡ false
    → Found test xs
    → Found test ((p, d) ∷ xs)
Found-cons test p d t f = record {
  before = (p, d) ∷ f.before;
  after = f.after;
  node = f.node;
  payload = f.payload;
  splits = ap (◌∷◌ (p, d)) f.splits;
  node_is = rw t f.node_is;
  payload_is = rw t f.payload_is;
  rest_is = rw t (ap (◌∷◌ (p, d)) f.rest_is);
}

pub find_cases :
    (test : ℕ → Bool) (xs : Cells)
    → ((find_cell test xs ≡ null) × (find_data test xs ≡ null) × (erase_first test xs ≡ xs))
      ⊎ Found test xs
find_cases test [] = inl (refl, refl, refl)
find_cases test ((p, d) ∷ xs) = elim (Bool-cases (test d)) [
  | inl t ↦ inr (record {
    before = [];
    after = xs;
    node = p;
    payload = d;
    splits = refl;
    node_is = rw t refl;
    payload_is = rw t refl;
    rest_is = rw t refl;
  })
  | inr t ↦ elim (find_cases test xs) [
    | inl (a, b, c) ↦ inl (rw t a, rw t b, rw t (ap (◌∷◌ (p, d)) c))
    | inr f ↦ inr (Found-cons test p d t f)
  ]
]

-- With more fuel than nodes queue_delete ends without a fault: it returns the data of the first
-- node from the head on that passes the test, or NULL if none does; the queue then holds the
-- other nodes in their order; nothing outside the queue's nodes is written.
pub queue_delete_lem :
    {h : Heap} {q : Ends} {xs : Cells} (fuel : ℕ) (test : ℕ → Bool)
    → IsQueue h q xs
    → length xs < fuel
    → (q' : Ends) × (g : Heap) × (queue_delete fuel test (some q) h
        ≡ some ((find_data test xs, some q'), g))
      × IsQueue g q' (erase_first test xs)
      × SameOutside xs h g
queue_delete_lem {h} {q} {xs} fuel test is f =
    let search =
      ap (λ p. search_from fuel test p h) is.head_is
      ∙ search_from_lem h fuel test null xs f is.linked in
    elim (find_cases test xs) [
      | inl (a, b, c) ↦ (
        q,
        h,
        absent_run h q fuel test (search ∙ ap (λ p. some (p, h)) a)
            ∙ ap (λ k. some ((k, some q), h)) (sym b),
        rw c is,
        λ a o. refl,
      )
      | inr found ↦
          let at =
            IsQueue-Around found.node found.payload found.before found.after
              (subst (IsQueue h q) found.splits is) in
          (
            joined found.before found.after,
            taken h found.node found.before found.after,
            rw found.payload_is (
                delete_run h q found.node found.payload found.before found.after fuel test at
                  (search ∙ ap (λ p. some (p, h)) found.node_is)),
            rw found.rest_is (unfold taken in freed-IsQueue h q _ _ found.before found.after at),
            rw found.splits (taken-SameOutside h found.node found.payload found.before found.after),
          )
    ]

-- On an empty queue dequeue and peek return NULL and change nothing.
pub dequeue-nil :
    {h : Heap} {q : Ends}
    → IsQueue h q []
    → (dequeue (some q) h ≡ some ((null, some q), h)) × (peek (some q) h ≡ some (null, h))
unfolding dequeue peek
dequeue-nil {q} is =
    (rw (==_of_eq q.tail null is.tail_is) refl, rw (==_of_eq q.tail null is.tail_is) refl)

-- peek returns what dequeue would, and changes nothing.
pub peek-snoc :
    {h : Heap} {q : Ends} (n : Ptr) (d : ℕ) (ys : Cells)
    → IsQueue h q (ys ++ (n, d) ∷ [])
    → peek (some q) h ≡ some (d, h)
unfolding peek
peek-snoc {h} {q} n d ys is =
    let at = IsQueue-Around n d ys [] is in
    let tail_ne = λ (e : q.tail ≡ null). at.ne_null (sym at.tail_is ∙ e) in
    rw (==_of_ne q.tail null tail_ne)
      (bind_lem (load q.tail) _ (load_lem h q.tail tail_ne (ap h at.tail_is ∙ at.holds)) refl)
