-- ===== src/StQueue/Tests.antt =====
-- The queue of st_queue.c at a concrete heap.
use unix_kernel.Base.{ℕ, refl, Bool, none, some, [], ◌∷◌, arith, ◌==◌}
use unix_kernel.Queue.Heap.{Heap, Ends, write}
use unix_kernel.Queue.Links.{Cells, cell, IsQueue}

-- Two nodes in the queue, and one that is free for use.
abbrev two : Heap
two =
    write (write (write (λ _. none) 7 (some (cell 70 0 8))) 8 (some (cell 80 7 0))) 9
      (some (cell 0 0 0))

abbrev two_ends : Ends
two_ends = record { head = 8; tail = 7 }

abbrev two_cells : Cells
two_cells = (8, 80) ∷ (7, 70) ∷ []

two-IsQueue : IsQueue two two_ends two_cells
unfolding write
two-IsQueue = record {
  head_is = refl;
  tail_is = refl;
  linked = (omega arith, refl, (omega arith, refl, tt));
  distinct = (refl, (refl, tt));
}

abbrev is_seventy : ℕ → Bool
is_seventy d = d == 70
