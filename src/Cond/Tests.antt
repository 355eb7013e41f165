-- ===== src/Cond/Tests.antt =====
-- Thread 2 runs, 3 may run, 4 and 5 wait in the condition variable at address 8. The id of the
-- thread at address `k` is `k`, and the scheduler's thread is at address 1.
use unix_kernel.Base.{
  ℕ, ◌≡◌, ◌<◌, refl, true, false, List, [], ◌∷◌, ◌++◌, arith, ◌==◌, if◌then◌else◌,
}
use unix_kernel.StHash.{sht_new, find_entry}
use unix_kernel.StHash.Laws.{sht_new-IsSht}
use unix_kernel.Sched.Places.{IsSched, places, count, count_sleeping, count_waiting}
use unix_kernel.Cond.{
  Conds, set_cond, set_queue, cond_destroy, cond_wait, cond_signal, cond_broadcast,
}
use unix_kernel.Cond.Woken.{cond_signal_lem, cond_broadcast_lem}
use unix_kernel.Cond.Kept.{IsConds, IsKept, no_waiter_lost}

abbrev same_id : ℕ → ℕ
same_id k = k

abbrev start : Conds
start = record {
  kernel = record {
    running = 2;
    lists = record { runnable = 3 ∷ []; waiting = sht_new; sleeping = [] };
    mutex = record { init = true; available = false; holder = 2; queue = 6 ∷ [] };
    blocked = λ k. k == 6;
  };
  cond = λ j. record { init = true; wait_ktcbs = if j == 8 then 5 ∷ 4 ∷ [] else [] };
}

cond_signal_lem_example : cond_signal 1 same_id 9 start 8 ≡ record (set_queue start 8 (5 ∷ [])) {
  kernel = record start.kernel {
    running = 4;
    lists = record start.kernel.lists { runnable = 2 ∷ 3 ∷ [] };
  };
}
unfolding places count count_sleeping count_waiting find_entry
cond_signal_lem_example =
    cond_signal_lem 1 same_id 9 start 8 (5 ∷ []) 4 (omega arith) (omega arith) (omega arith) refl
      refl

waiting-nowhere :
    (j : ℕ) → 0 < count j (start.cond 8).wait_ktcbs → places same_id start.kernel.lists j ≡ 0
unfolding places count count_sleeping count_waiting find_entry
waiting-nowhere j here = ground arith

cond_broadcast_lem_example :
    ((cond_broadcast 1 same_id start 8).kernel
      ≡ record start.kernel { lists = record start.kernel.lists { runnable = 5 ∷ 4 ∷ 3 ∷ [] } })
    × ((j : ℕ)
        → (cond_broadcast 1 same_id start 8).cond j
          ≡ (if j == 8 then record (start.cond 8) { wait_ktcbs = [] } else start.cond j))
unfolding count
cond_broadcast_lem_example =
    cond_broadcast_lem 1 same_id start 8 refl (λ j. ground arith) waiting-nowhere

start-IsSched : IsSched 1 same_id start.kernel.lists
unfolding places count count_sleeping count_waiting find_entry
start-IsSched = record {
  table = sht_new-IsSht;
  keys = λ t k e. ground arith;
  sorted = ground arith;
  once = λ k. ground arith;
  no_sched = refl;
  no_null = refl;
}

start-IsConds : IsConds 1 same_id 8 start
unfolding places count count_sleeping count_waiting find_entry
start-IsConds = record {
  runs = record { valid = start-IsSched; not_null = omega arith; free = refl };
  once = λ j ne. ground arith;
  no_sched = refl;
  no_null = refl;
}

no_waiter_lost_example :
    (IsKept 1 same_id 8 start (cond_wait 1 same_id 7 start 8)
      × (((cond_wait 1 same_id 7 start 8).cond 8).wait_ktcbs ≡ 2 ∷ 5 ∷ 4 ∷ []))
    × ((ws : List ℕ) (w : ℕ)
        → (start.cond 8).wait_ktcbs ≡ ws ++ w ∷ []
        → IsKept 1 same_id 8 start (cond_signal 1 same_id 9 start 8)
          × ((cond_signal 1 same_id 9 start 8).kernel.running ≡ w))
    × ((start.cond 8).wait_ktcbs ≡ [] → cond_signal 1 same_id 9 start 8 ≡ start)
no_waiter_lost_example =
    no_waiter_lost 1 same_id (omega arith) 7 9 start 8 (omega arith) refl (omega arith)
      start-IsConds

-- cond_destroy on a condition variable in use: its threads still wait, and it is no longer
-- initialised.
destroyed_in_use : (cond_destroy start 8).cond 8 ≡ record { init = false; wait_ktcbs = 5 ∷ 4 ∷ [] }
unfolding cond_destroy set_cond
destroyed_in_use = refl
