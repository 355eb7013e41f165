-- ===== src/TimedQueue.antt =====
-- kern/data_structure/timed_queue.c: the queue of sleeping threads, ordered by the tick from which
-- a thread may run. A node is its `ticks` and its `data`, an address, 0 for NULL; the list that
-- starts at `tq.head` is the list of its nodes, and a node that the caller hands over is in no list.
-- `ticks_global` is an argument.
pub mod Order
pub mod Wakeup
mod Tests
use unix_kernel.Base.{ℕ, Bool, List, [], ◌∷◌, ℤ, pos, ltb, ◌==◌, if◌then◌else◌}

pub record TimedNode : Type 0 where
  pub ticks : ℕ
  pub payload : ℕ

abbrev pub TimedQueue : Type 0
TimedQueue = List TimedNode

pub tq_init : TimedQueue → ℤ × TimedQueue
tq_init tq = (pos 0, [])

-- The walk from `curr` on: the node goes before the first node that is due later.
unfoldable pub tq_insert : (payload ticks : ℕ) → TimedQueue → TimedQueue
tq_insert payload ticks [] = record { ticks = ticks; payload = payload } ∷ []
tq_insert payload ticks (curr ∷ rest) =
    let later = tq_insert payload ticks rest in
    if ltb ticks curr.ticks
    then record { ticks = ticks; payload = payload } ∷ curr ∷ rest
    else curr ∷ later

unfoldable pub tq_get : (ticks_global : ℕ) → TimedQueue → ℕ × TimedQueue
tq_get now [] = (0, [])
tq_get now (n ∷ rest) = if ltb n.ticks now then (n.payload, rest) else (0, n ∷ rest)

unfoldable pub tq_find : ℕ → TimedQueue → ℤ
tq_find payload [] = pos 0
tq_find payload (n ∷ rest) =
    let found = tq_find payload rest in if payload == n.payload then pos 1 else found

unfoldable pub tq_delete : ℕ → TimedQueue → ℕ × TimedQueue
tq_delete payload [] = (0, [])
tq_delete payload (n ∷ rest) =
    let (ticks, left) = tq_delete payload rest in
    if payload == n.payload then (n.ticks, rest) else (ticks, n ∷ left)
