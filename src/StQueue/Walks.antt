-- ===== src/StQueue/Walks.antt =====
-- The walks over all nodes of st_queue.c.
use unix_kernel.Base.{ℕ, ◌<◌, ◌≡◌, refl, ap, Bool, some, arith, pos, if◌then◌else◌, length}
use unix_kernel.Queue.Heap.{Heap, null, Ends}
use unix_kernel.Queue.Links.{Cells, IsQueue}
use unix_kernel.Queue.Run.{bind_lem}
use unix_kernel.Queue.Search.{
  find_data, every, search_from_lem, fetch_lem, traverse_from_lem, count_from_lem,
}
use unix_kernel.Queue.Walks.{and_all, and_from_lem, find_true_from_lem}
use unix_kernel.Queue.{search_from, and_from, count_from}
use unix_kernel.StQueue.{
  st_queue_find, st_queue_traverse, st_queue_traverse_all, st_queue_find_true, st_queue_size,
}

-- On a queue that holds `xs`, with more fuel than nodes: st_queue_find and st_queue_find_true answer
-- the first data from the head on that passes the test, or NULL; st_queue_traverse answers 1 if all
-- data passes and 0 if not; st_queue_traverse_all answers the bitwise conjunction of 1 and what `fn`
-- answers for each node's data; st_queue_size answers the number of nodes. None of them faults or
-- changes the heap.
pub st_walks_lem :
    {h : Heap} {q : Ends} {xs : Cells} (fuel : ℕ) (fn : ℕ → ℕ) (test : ℕ → Bool)
    → IsQueue h q xs
    → length xs < fuel
    → (st_queue_find fuel test (some q) h ≡ some (find_data test xs, h))
      × (st_queue_find_true fuel test (some q) h ≡ some (find_data test xs, h))
      × (st_queue_traverse fuel test (some q) h ≡ some (if every test xs then pos 1 else pos 0, h))
      × (st_queue_traverse_all fuel fn (some q) h ≡ some (pos (and_all fn 1 xs), h))
      × (st_queue_size fuel (some q) h ≡ some (pos (length xs), h))
unfolding st_queue_find st_queue_find_true st_queue_traverse st_queue_traverse_all st_queue_size
st_walks_lem {h} {q} {xs} fuel fn test is f = (
  rw is.head_is (
      bind_lem (search_from fuel test _) _ (search_from_lem h fuel test null xs f is.linked)
        (fetch_lem h test null xs is.linked)),
  rw is.head_is (find_true_from_lem h fuel test null xs f is.linked),
  rw is.head_is (traverse_from_lem h fuel test null xs f is.linked),
  rw is.head_is
      (bind_lem (and_from fuel fn 1 _) _ (and_from_lem h fuel fn 1 null xs f is.linked) refl),
  rw is.head_is (
      bind_lem (count_from fuel 0 _) _ (count_from_lem h fuel 0 null xs f is.linked)
        (ap (λ k. some (pos k, h)) (omega arith))),
)
