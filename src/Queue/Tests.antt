-- ===== src/Queue/Tests.antt =====
-- The queue of queue.c at a concrete heap.
use unix_kernel.Base.{ℕ, ◌≡◌, refl, Bool, Option, none, some, [], ◌∷◌, arith, ℤ, pos, ◌==◌}
use unix_kernel.Queue.Heap.{
  Heap, Ends, M, write, ◌>>=◌, pure, load, fill, set_next, set_prev, clear_node, free_node,
}
use unix_kernel.Queue.Links.{Cells, cell, IsQueue, SameOutside}
use unix_kernel.Queue.Dequeue.{queue_delete_lem}
use unix_kernel.Queue.{enqueue, dequeue, link_head, unlink_tail, queue_empty, queue_delete}

-- 30, then 20, then 10 on its way out.
abbrev three : Heap
three =
    write (write (write (λ _. none) 1 (some (cell 10 0 2))) 2 (some (cell 20 1 3))) 3
      (some (cell 30 2 0))

abbrev three_ends : Ends
three_ends = record { head = 3; tail = 1 }

abbrev three_cells : Cells
three_cells = (3, 30) ∷ (2, 20) ∷ (1, 10) ∷ []

abbrev is_twenty : ℕ → Bool
is_twenty d = d == 20

three-IsQueue : IsQueue three three_ends three_cells
unfolding write
three-IsQueue = record {
  head_is = refl;
  tail_is = refl;
  linked = (omega arith, refl, (omega arith, refl, (omega arith, refl, tt)));
  distinct = (refl, (refl, (refl, tt)));
}

-- Two enqueues and three dequeues from an empty queue.
script : M (ℕ × ℕ × ℕ × ℤ)
script = do
  (_, q) ← enqueue 5 50 (some (record { head = 0; tail = 0 }))
  (_, q) ← enqueue 6 60 q
  (a, q) ← dequeue q
  (b, q) ← dequeue q
  (c, q) ← dequeue q
  pure (a, b, c, queue_empty q)

-- What a run returns, without its heap.
value : {A : Type 0} → M A → Heap → Option A
value m h = elim (m h) [ none ↦ none | some (a, _) ↦ some a ]

first_in_first_out : value script (λ _. none) ≡ some (50, 60, 0, pos 1)
unfolding value script enqueue dequeue link_head unlink_tail queue_empty load fill set_next set_prev
    clear_node free_node write
first_in_first_out = refl

queue_delete_lem_example :
    (q' : Ends) × (g : Heap) × (queue_delete 4 is_twenty (some three_ends) three
      ≡ some ((20, some q'), g))
    × IsQueue g q' ((3, 30) ∷ (1, 10) ∷ [])
    × SameOutside three_cells three g
queue_delete_lem_example = queue_delete_lem 4 is_twenty three-IsQueue (omega arith)
