-- ===== src/Sched/Tests.antt =====
-- The scheduler's lists with two runnable threads and a sleeper. The id of the thread at address
-- `k` is `k` here, and the scheduler's thread is at address 1.
use unix_kernel.Base.{ℕ, ◌≡◌, refl, List, [], ◌∷◌, ◌++◌, arith, ℤ}
use unix_kernel.TimedQueue.{TimedNode, TimedQueue}
use unix_kernel.TimedQueue.Wakeup.{due}
use unix_kernel.StHash.{sht_new, find_entry}
use unix_kernel.StHash.Laws.{sht_new-IsSht}
use unix_kernel.Sched.{
  Sched, sched_runnable_to_running, sched_waiting_to_running, sched_sleep_to_running, sched_next,
}
use unix_kernel.Sched.Places.{places, count, count_sleeping, count_waiting, IsSched}
use unix_kernel.Sched.Takes.{TakesOne, to_running_lem}
use unix_kernel.Sched.Turns.{sched_next_lem}

abbrev same_id : ℕ → ℕ
same_id k = k

abbrev lists : Sched
lists = record {
  runnable = 3 ∷ 2 ∷ [];
  waiting = sht_new;
  sleeping = record { ticks = 9; payload = 4 } ∷ [];
}

lists-IsSched : IsSched 1 same_id lists
unfolding places count count_sleeping count_waiting find_entry
lists-IsSched = record {
  table = sht_new-IsSht;
  keys = λ t k e. ground arith;
  sorted = ground arith;
  once = λ k. ground arith;
  no_sched = refl;
  no_null = refl;
}

to_running_lem_example :
    ((t : ℤ) → TakesOne 1 same_id lists (sched_runnable_to_running 1 same_id lists t))
    × ((t : ℕ) → TakesOne 1 same_id lists (sched_waiting_to_running 1 same_id lists t))
    × ((now : ℕ) → TakesOne 1 same_id lists (sched_sleep_to_running 1 same_id now lists))
to_running_lem_example = to_running_lem 1 same_id lists lists-IsSched

sched_next_lem_example :
    ((n : TimedNode) (later : TimedQueue)
      → due 9 lists.sleeping ≡ n ∷ later
      → (rest : TimedQueue) × (lists.sleeping ≡ n ∷ rest)
        × (sched_next 1 same_id 9 lists ≡ (n.payload, record lists { sleeping = rest })))
    × (due 9 lists.sleeping ≡ []
        → (xs : List ℕ) (y : ℕ) → lists.runnable ≡ xs ++ y ∷ []
        → sched_next 1 same_id 9 lists ≡ (y, record lists { runnable = xs }))
    × (due 9 lists.sleeping ≡ [] → lists.runnable ≡ [] → sched_next 1 same_id 9 lists ≡ (1, lists))
sched_next_lem_example = sched_next_lem 1 same_id 9 lists lists-IsSched

-- At tick 9 the sleeper is not yet due, so the oldest runnable thread is next; at 10 it is.
at_nine : sched_next 1 same_id 9 lists ≡ (2, record lists { runnable = 3 ∷ [] })
at_nine = (sched_next_lem 1 same_id 9 lists lists-IsSched).1 refl (3 ∷ []) 2 refl
