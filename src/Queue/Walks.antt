-- ===== src/Queue/Walks.antt =====
-- The walks over all nodes of queue.c that take a function of the data.
use unix_kernel.Base.{
  ℕ, zero, suc, ◌<◌, ◌≡◌, refl, Bool, Bool-cases, inl, inr, some, [], ◌∷◌, arith, bit_and, pos,
  ==_of_ne, length,
}
use unix_kernel.Queue.Heap.{Heap, Ptr, null, Ends, load}
use unix_kernel.Queue.Links.{Cells, first, Linked, IsQueue}
use unix_kernel.Queue.Run.{bind_lem, load_lem}
use unix_kernel.Queue.Search.{find_data}
use unix_kernel.Queue.{and_from, find_true_from, queue_traverse_all, queue_find_true}

-- The conjunction, bit by bit, of `fn` over all data, from 1 on.
abbrev pub and_all : (ℕ → ℕ) → ℕ → Cells → ℕ
and_all fn result [] = result
and_all fn result ((p, d) ∷ xs) = and_all fn (bit_and result (fn d)) xs

module _ (h : Heap) where
  pub and_from_lem :
      (fuel : ℕ) (fn : ℕ → ℕ) (result : ℕ) (pv : Ptr) (xs : Cells)
      → length xs < fuel
      → Linked h pv null xs
      → and_from fuel fn result (first xs null) h ≡ some (and_all fn result xs, h)
  unfolding and_from
  and_from_lem zero fn result pv xs f l = absurd (omega arith)
  and_from_lem (suc fuel) fn result pv [] f l = refl
  and_from_lem (suc fuel) fn result pv ((p, d) ∷ xs) f l = rw (==_of_ne p null l.0) (
      bind_lem (load p) _ (load_lem h p l.0 l.1)
        (and_from_lem fuel fn (bit_and result (fn d)) p xs (omega arith) l.2))

  pub find_true_from_lem :
      (fuel : ℕ) (fn : ℕ → Bool) (pv : Ptr) (xs : Cells)
      → length xs < fuel
      → Linked h pv null xs
      → find_true_from fuel fn (first xs null) h ≡ some (find_data fn xs, h)
  unfolding find_true_from
  find_true_from_lem zero fn pv xs f l = absurd (omega arith)
  find_true_from_lem (suc fuel) fn pv [] f l = refl
  find_true_from_lem (suc fuel) fn pv ((p, d) ∷ xs) f l = rw (==_of_ne p null l.0) (
      bind_lem (load p) _ (load_lem h p l.0 l.1) (elim (Bool-cases (fn d)) [
        | inl t ↦ rw t refl
        | inr t ↦ rw t (find_true_from_lem fuel fn p xs (omega arith) l.2)
      ]))

-- On a queue that holds `xs`, with more fuel than nodes: queue_traverse_all answers the bitwise
-- conjunction of 1 and what `fn` answers for each node's data, all of them visited, and
-- queue_find_true the first data that passes the test, or NULL. Neither faults or changes the heap.
pub walks_all_lem :
    {h : Heap} {q : Ends} {xs : Cells} (fuel : ℕ) (fn : ℕ → ℕ) (test : ℕ → Bool)
    → IsQueue h q xs
    → length xs < fuel
    → (queue_traverse_all fuel fn (some q) h ≡ some (pos (and_all fn 1 xs), h))
      × (queue_find_true fuel test (some q) h ≡ some (find_data test xs, h))
unfolding queue_traverse_all queue_find_true
walks_all_lem {h} {q} {xs} fuel fn test is f = (
  rw is.head_is
      (bind_lem (and_from fuel fn 1 _) _ (and_from_lem h fuel fn 1 null xs f is.linked) refl),
  rw is.head_is (find_true_from_lem h fuel test null xs f is.linked),
)
