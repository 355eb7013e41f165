-- ===== src/Queue/Unlink.antt =====
-- `unlink`, the pointer surgery of queue_delete and st_queue_delete, in its four cases.
use unix_kernel.Base.{
  ℕ, ◌≡◌, refl, ◌≢◌, ◌∙◌, ap, ap₂, sym, append-nil, false, none, some, [], ◌∷◌, ◌++◌, arith, Option,
  ==_of_eq, ==_of_ne,
}
use unix_kernel.Queue.Heap.{Ptr, null, Node, Heap, Ends, write, load, set_next, set_prev}
use unix_kernel.Queue.Run.{bind_lem, with_next, load_lem, set_next_lem, set_prev_lem}
use unix_kernel.Queue.Links.{
  Cells, has_cell, first, last, cell, Linked, IsQueue, last-append, has_cell-last, last-ne-null,
  has_cell-append, Linked-write,
}
use unix_kernel.Queue.Bridge.{
  Apart-back, bridged, bridged-Linked, bridged-SameOutside, with_next_other, ne_of_has,
}
use unix_kernel.Queue.Split.{Around, Distinct-append}
use unix_kernel.Queue.{unlink, unlink_tail}

abbrev pub joined : Cells → Cells → Ends
joined ys zs = record { head = first (ys ++ zs) null; tail = last null (ys ++ zs) }

ends_path :
    {p p' t t' : Ptr} (g : Heap)
    → p ≡ p'
    → t ≡ t'
    → ◌≡◌ {A = Option (Ends × Heap)}
        (some (record { head = p; tail = t }, g))
        (some (record { head = p'; tail = t' }, g))
ends_path g e f = ap₂ (λ x y. some (record { head = x; tail = y }, g)) e f

last_allocated :
    (h : Heap) (pv nx p : Ptr) (d : ℕ) (xs : Cells)
    → Linked h pv nx ((p, d) ∷ xs)
    → (e : Node) × (h (last p xs) ≡ some e)
last_allocated h pv nx p d [] l = (_, l.1)
last_allocated h pv nx p d ((a, e) ∷ xs) l = last_allocated h p nx a e xs l.2

-- A node that is not in a chain is not its last.
ne_last : (n p : Ptr) (d : ℕ) (xs : Cells) → has_cell n ((p, d) ∷ xs) ≡ false → n ≢ last p xs
ne_last n p d xs out = ne_of_has ((p, d) ∷ xs) n (last p xs) out (has_cell-last null p d xs)

ne_first : (n p : Ptr) (d : ℕ) (xs : Cells) → has_cell n ((p, d) ∷ xs) ≡ false → n ≢ p
ne_first n p d xs out = ground arith

pub unlink_lem :
    (h : Heap) (q : Ends) (n : Ptr) (d : ℕ) (ys zs : Cells)
    → Around h q n d ys zs
    → unlink n q h ≡ some (joined ys zs, bridged h ys zs)
unfolding unlink bridged
unlink_lem h q n d [] [] at =
    bind_lem (load n) _ (load_lem h n at.ne_null at.holds)
      (rw (==_of_eq n q.head (sym at.head_is), ==_of_eq n q.tail (sym at.tail_is)) refl)
unlink_lem h q n d [] ((b, f) ∷ zs) at = bind_lem (load n) _ (load_lem h n at.ne_null at.holds) (
    rw
      (
        ==_of_eq n q.head (sym at.head_is),
        ==_of_ne n q.tail (λ e. ne_last n b f zs at.not_right (e ∙ at.tail_is)),
      )
      (bind_lem (set_prev b null) _ (set_prev_lem h b at.right.0 at.right.1 null)
        (ends_path _ refl at.tail_is)))
unlink_lem h q n d ((a, e) ∷ ys) [] at = bind_lem (load n) _ (load_lem h n at.ne_null at.holds) (
    rw
      (
        ==_of_ne n q.head (λ k. ne_first n a e ys at.not_left (k ∙ at.head_is)),
        ==_of_eq n q.tail (sym at.tail_is),
      )
      (bind_lem (set_next (last a ys) null) _
        (set_next_lem h (last a ys) (last-ne-null h null n a e ys at.left)
          (last_allocated h null n a e ys at.left).1 null)
        (ends_path _ at.head_is (ap (last a) (sym (append-nil ys))))))
unlink_lem h q n d ((a, e) ∷ ys) ((b, f) ∷ zs) at =
    bind_lem (load n) _ (load_lem h n at.ne_null at.holds) (
      rw
        (
          ==_of_ne n q.head (λ k. ne_first n a e ys at.not_left (k ∙ at.head_is)),
          ==_of_ne n q.tail (λ k. ne_last n b f zs at.not_right (k ∙ at.tail_is)),
        )
        (bind_lem (set_next (last a ys) b) _
          (set_next_lem h (last a ys) (last-ne-null h null n a e ys at.left)
            (last_allocated h null n a e ys at.left).1 b)
          (bind_lem (set_prev b (last a ys)) _
            (set_prev_lem (with_next h (last a ys) b) b at.right.0
              (with_next_other h (last a ys) b b
                  (ne_last b a e ys (Apart-back b f ((a, e) ∷ ys) zs at.apart))
                ∙ at.right.1)
              (last a ys))
            (ends_path _ at.head_is (at.tail_is ∙ sym (last-append a ys ((b, f) ∷ zs)))))))

not_joined :
    (h : Heap) (q : Ends) (n : Ptr) (d : ℕ) (ys zs : Cells)
    → Around h q n d ys zs
    → has_cell n (ys ++ zs) ≡ false
not_joined h q n d ys zs at = rw (has_cell-append n ys zs, at.not_left, at.not_right)

pub joined-IsQueue :
    (h : Heap) (q : Ends) (n : Ptr) (d : ℕ) (ys zs : Cells)
    → Around h q n d ys zs
    → IsQueue (bridged h ys zs) (joined ys zs) (ys ++ zs)
joined-IsQueue h q n d ys zs at = record {
  head_is = refl;
  tail_is = refl;
  linked = bridged-Linked h n ys zs at.left_distinct at.right_distinct at.apart at.left at.right;
  distinct = Distinct-append ys zs at.left_distinct at.right_distinct at.apart;
}

-- The case that dequeue needs, where the node is the last.
pub unlink_tail_lem :
    (h : Heap) (q : Ends) (n : Ptr) (d : ℕ) (ys : Cells)
    → Around h q n d ys []
    → unlink_tail q h ≡ some (joined ys [], bridged h ys [])
unfolding unlink_tail bridged
unlink_tail_lem h q n d [] at =
    rw at.tail_is (bind_lem (load n) _ (load_lem h n at.ne_null at.holds) refl)
unlink_tail_lem h q n d ((a, e) ∷ ys) at = rw at.tail_is (
    bind_lem (load n) _ (load_lem h n at.ne_null at.holds) (
      rw (==_of_ne (last a ys) null (last-ne-null h null n a e ys at.left)) (
        bind_lem (set_next (last a ys) null) _
          (set_next_lem h (last a ys) (last-ne-null h null n a e ys at.left)
            (last_allocated h null n a e ys at.left).1 null)
          (ends_path _ at.head_is (ap (last a) (sym (append-nil ys)))))))

-- The node itself is left alone, and can then be freed.
pub bridged_at :
    (h : Heap) (q : Ends) (n : Ptr) (d : ℕ) (ys zs : Cells)
    → Around h q n d ys zs
    → bridged h ys zs n ≡ some (cell d (first zs null) (last null ys))
bridged_at h q n d ys zs at = bridged-SameOutside h ys zs n (not_joined h q n d ys zs at) ∙ at.holds

-- The queue that is left once the node is freed.
pub freed-IsQueue :
    (h : Heap) (q : Ends) (n : Ptr) (d : ℕ) (ys zs : Cells)
    → Around h q n d ys zs
    → IsQueue (write (bridged h ys zs) n none) (joined ys zs) (ys ++ zs)
freed-IsQueue h q n d ys zs at =
    let is = joined-IsQueue h q n d ys zs at in
    record {
      head_is = refl;
      tail_is = refl;
      linked =
          Linked-write (bridged h ys zs) null null n none (ys ++ zs) (not_joined h q n d ys zs at)
            is.linked;
      distinct = is.distinct;
    }
