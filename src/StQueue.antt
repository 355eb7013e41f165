-- ===== src/StQueue.antt =====
-- kern/data_structure/st_queue.c: the queue whose nodes the caller owns, so that no operation
-- allocates. The pointer surgery is that of queue.c line for line and is shared with `Queue`; a
-- node that leaves the queue stays allocated. Pointers, fuel and faults are as in `Queue`.
pub mod Laws
pub mod Walks
mod Tests
use unix_kernel.Base.{ℕ, Option, none, some, ℤ, pos, minus_one, ◌==◌, if◌then◌else◌, Bool}
use unix_kernel.Queue.Heap.{Ptr, null, Ends, M, pure, ◌>>=◌, load}
use unix_kernel.Queue.{
  link_head, unlink_tail, unlink, search_from, traverse_from, count_from, and_from, find_true_from,
}

-- What `calloc` makes of the memory for the head and the tail.
pub st_queue_new : (calloc_ok : Bool) → Option Ends
st_queue_new calloc_ok = if calloc_ok then some (record { head = null; tail = null }) else none

-- `n` is the caller's node.
pub st_enqueue : Ptr → ℕ → Option Ends → M (ℤ × Option Ends)
st_enqueue n d none = pure (minus_one, none)
st_enqueue n d (some q) =
    if n == null then pure (minus_one, some q) else do q' ← link_head n d q; pure (pos 0, some q')

pub st_dequeue : Option Ends → M (ℕ × Option Ends)
st_dequeue none = pure (null, none)
st_dequeue (some q) =
    if q.tail == null
    then pure (null, some q)
    else do q' ← unlink_tail q; tail ← load q.tail; pure (tail.payload, some q')

pub st_peek : Option Ends → M ℕ
st_peek none = pure null
st_peek (some q) = if q.tail == null then pure null else do tail ← load q.tail; pure tail.payload

pub st_queue_empty : Option Ends → ℤ
st_queue_empty none = minus_one
st_queue_empty (some q) = if q.head == null then pos 1 else pos 0

pub st_queue_find : ℕ → (ℕ → Bool) → Option Ends → M ℕ
st_queue_find fuel test none = pure null
st_queue_find fuel test (some q) = do
  n ← search_from fuel test q.head
  if n == null then pure null else do e ← load n; pure e.payload

pub st_queue_delete : ℕ → (ℕ → Bool) → Option Ends → M (ℕ × Option Ends)
st_queue_delete fuel test none = pure (null, none)
st_queue_delete fuel test (some q) = do
  n ← search_from fuel test q.head
  if n == null
      then pure (null, some q)
      else do e ← load n; q' ← unlink n q; pure (e.payload, some q')

pub st_queue_traverse : ℕ → (ℕ → Bool) → Option Ends → M ℤ
st_queue_traverse fuel fn none = pure minus_one
st_queue_traverse fuel fn (some q) = traverse_from fuel fn q.head

-- `fn` is taken to answer no negative number.
pub st_queue_traverse_all : ℕ → (ℕ → ℕ) → Option Ends → M ℤ
st_queue_traverse_all fuel fn none = pure minus_one
st_queue_traverse_all fuel fn (some q) = do k ← and_from fuel fn 1 q.head; pure (pos k)

pub st_queue_find_true : ℕ → (ℕ → Bool) → Option Ends → M ℕ
st_queue_find_true fuel fn none = pure null
st_queue_find_true fuel fn (some q) = find_true_from fuel fn q.head

pub st_queue_size : ℕ → Option Ends → M ℤ
st_queue_size fuel none = pure minus_one
st_queue_size fuel (some q) = do k ← count_from fuel 0 q.head; pure (pos k)
