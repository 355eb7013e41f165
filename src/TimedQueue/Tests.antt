-- ===== src/TimedQueue/Tests.antt =====
-- The timed queue at concrete queues.
use unix_kernel.Base.{ℕ, ◌+◌, ◌≡◌, refl, [], ◌∷◌, ◌++◌, arith}
use unix_kernel.TimedQueue.{TimedNode, TimedQueue, tq_insert, tq_get}
use unix_kernel.TimedQueue.Order.{NotBefore, NotAfter, IsSorted, tq_insert_lem}

abbrev node : ℕ → ℕ → TimedNode
node t d = record { ticks = t; payload = d }

abbrev sleepers : TimedQueue
sleepers = node 3 10 ∷ node 5 20 ∷ node 5 30 ∷ []

sleepers-IsSorted : IsSorted sleepers
sleepers-IsSorted = ground arith

same_tick : tq_insert 40 5 sleepers ≡ node 3 10 ∷ node 5 20 ∷ node 5 30 ∷ node 5 40 ∷ []
unfolding tq_insert
same_tick = refl

not_yet : tq_get 3 sleepers ≡ (0, sleepers)
unfolding tq_get
not_yet = refl

tq_insert_lem_example :
    IsSorted (tq_insert 40 4 sleepers)
    × (before after : TimedQueue) × (sleepers ≡ before ++ after)
    × (tq_insert 40 4 sleepers ≡ before ++ node 4 40 ∷ after)
    × NotAfter 4 before
    × NotBefore (4 + 1) after
tq_insert_lem_example = tq_insert_lem 40 4 sleepers sleepers-IsSorted
