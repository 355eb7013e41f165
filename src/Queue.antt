-- ===== src/Queue.antt =====
-- kern/data_structure/queue.c over an explicit heap. A `queue` pointer that may be NULL is an
-- option; a function that writes through it returns the new `head` and `tail` beside its result.
-- `calloc` answers an address, 0 when it fails; it is an argument. Callbacks are functions. Each
-- loop runs on fuel: one round for each node and one more are enough.
pub mod Heap
pub mod Links
pub mod Run
pub mod Bridge
pub mod Enqueue
pub mod Split
pub mod Unlink
pub mod Search
pub mod Dequeue
pub mod Walks
mod Tests
use unix_kernel.Base.{
  bit_and, ℕ, zero, suc, ◌+◌, Bool, true, false, not, ◌&&◌, Option, none, some, ℤ, pos, minus_one,
  ◌==◌, if◌then◌else◌,
}
use Heap.{
  Ptr, null, Node, Ends, M, pure, ◌>>=◌, ◌>>◌, when, load, fill, set_next, set_prev, clear_node,
  free_node,
}

-- The part of `enqueue` that st_enqueue shares: the node `n` goes in front.
pub link_head : Ptr → ℕ → Ends → M Ends
link_head n d q = do
  fill n (record { payload = d; next = q.head; prev = null })
  when (not (q.head == null)) (set_prev q.head n)
  pure (record { head = n; tail = if q.tail == null then n else q.tail })

-- `fresh` is what `calloc` returns.
pub enqueue : (fresh : Ptr) → ℕ → Option Ends → M (ℤ × Option Ends)
enqueue fresh d none = pure (minus_one, none)
enqueue fresh d (some q) =
    if fresh == null
    then pure (minus_one, some q)
    else do clear_node fresh; q' ← link_head fresh d q; pure (pos 0, some q')

-- The part of `dequeue` that st_dequeue shares: the last node leaves a queue that has one.
pub unlink_tail : Ends → M Ends
unlink_tail q = do
  tail ← load q.tail
  if tail.prev == null
      then pure (record { head = null; tail = null })
      else do set_next tail.prev null; pure (record q { tail = tail.prev })

pub dequeue : Option Ends → M (ℕ × Option Ends)
dequeue none = pure (null, none)
dequeue (some q) =
    if q.tail == null
    then pure (null, some q)
    else do q' ← unlink_tail q; tail ← load q.tail; free_node q.tail; pure (tail.payload, some q')

pub peek : Option Ends → M ℕ
peek none = pure null
peek (some q) = if q.tail == null then pure null else do tail ← load q.tail; pure tail.payload

pub queue_empty : Option Ends → ℤ
queue_empty none = minus_one
queue_empty (some q) = if q.head == null then pos 1 else pos 0

-- The first node from `n` on whose data passes the test, or NULL.
pub search_from : ℕ → (ℕ → Bool) → Ptr → M Ptr
search_from zero test n = λ _. none
search_from (suc fuel) test n =
    if n == null
    then pure null
    else do e ← load n; if test e.payload then pure n else search_from fuel test e.next

-- `test` is `isEqual(arg, …)`.
pub queue_find : ℕ → (ℕ → Bool) → Option Ends → M ℕ
queue_find fuel test none = pure null
queue_find fuel test (some q) = do
  n ← search_from fuel test q.head
  if n == null then pure null else do e ← load n; pure e.payload

-- The part of `queue_delete` that st_queue_delete shares: the node `n` leaves the queue.
pub unlink : Ptr → Ends → M Ends
unlink n q = do
  e ← load n
  if n == q.head
      then (if n == q.tail
          then pure (record { head = null; tail = null })
          else (do set_prev e.next null; pure (record q { head = e.next })))
      else (if n == q.tail
          then (do set_next e.prev null; pure (record q { tail = e.prev }))
          else (do set_next e.prev e.next; set_prev e.next e.prev; pure q))

pub queue_delete : ℕ → (ℕ → Bool) → Option Ends → M (ℕ × Option Ends)
queue_delete fuel test none = pure (null, none)
queue_delete fuel test (some q) = do
  n ← search_from fuel test q.head
  if n == null
      then pure (null, some q)
      else do e ← load n; q' ← unlink n q; free_node n; pure (e.payload, some q')

-- `fn` answers 0 for a node that stops the walk.
unfoldable pub traverse_from : ℕ → (ℕ → Bool) → Ptr → M ℤ
traverse_from zero fn n = λ _. none
traverse_from (suc fuel) fn n =
    if n == null
    then pure (pos 1)
    else do e ← load n; if fn e.payload then traverse_from fuel fn e.next else pure (pos 0)

pub queue_traverse : ℕ → (ℕ → Bool) → Option Ends → M ℤ
unfolding traverse_from
queue_traverse fuel fn none = pure minus_one
queue_traverse fuel fn (some q) = traverse_from fuel fn q.head

unfoldable pub count_from : ℕ → ℕ → Ptr → M ℕ
count_from zero acc n = λ _. none
count_from (suc fuel) acc n =
    if n == null then pure acc else do e ← load n; count_from fuel (acc + 1) e.next

pub queue_size : ℕ → Option Ends → M ℤ
unfolding count_from
queue_size fuel none = pure minus_one
queue_size fuel (some q) = do k ← count_from fuel 0 q.head; pure (pos k)

-- `result` is the conjunction, bit by bit, of what `fn` has answered so far.
unfoldable pub and_from : ℕ → (ℕ → ℕ) → ℕ → Ptr → M ℕ
and_from zero fn result n = λ _. none
and_from (suc fuel) fn result n =
    if n == null
    then pure result
    else do e ← load n; and_from fuel fn (bit_and result (fn e.payload)) e.next

-- `fn` is taken to answer no negative number.
pub queue_traverse_all : ℕ → (ℕ → ℕ) → Option Ends → M ℤ
queue_traverse_all fuel fn none = pure minus_one
queue_traverse_all fuel fn (some q) = do k ← and_from fuel fn 1 q.head; pure (pos k)

unfoldable pub find_true_from : ℕ → (ℕ → Bool) → Ptr → M ℕ
find_true_from zero fn n = λ _. none
find_true_from (suc fuel) fn n =
    if n == null
    then pure null
    else do e ← load n; if fn e.payload then pure e.payload else find_true_from fuel fn e.next

pub queue_find_true : ℕ → (ℕ → Bool) → Option Ends → M ℕ
queue_find_true fuel fn none = pure null
queue_find_true fuel fn (some q) = find_true_from fuel fn q.head

-- What `calloc` makes of the memory for the head and the tail; mutex_init may fail after it.
pub queue_new : (calloc_ok mutex_ok : Bool) → Option Ends
queue_new calloc_ok mutex_ok =
    if calloc_ok && mutex_ok then some (record { head = null; tail = null }) else none
