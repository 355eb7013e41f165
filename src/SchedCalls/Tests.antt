-- ===== src/SchedCalls/Tests.antt =====
-- Four threads: 2 runs, 3 may run, 4 waits, 5 and 6 each wait for a mutex that the other holds. The
-- id of the thread at address `k` is `k`, and the scheduler's thread is at address 1.
use unix_kernel.Base.{ℕ, ◌≡◌, ◌≢◌, refl, none, some, [], ◌∷◌, arith, ℤ, pos, ◌==◌, if◌then◌else◌}
use unix_kernel.StHash.{sht_new, find_entry, sht_insert, sht_lookup, set_bucket, st_hash_get_index}
use unix_kernel.StHash.Laws.{sht_new-IsSht}
use unix_kernel.Sched.Places.{places, count, count_sleeping, count_waiting}
use unix_kernel.Sched.Kept.{IsRunning}
use unix_kernel.Sched.{
  sched_runnable_to_running, sched_is_waiting, take_first, taken_runnable, not_sched,
}
use unix_kernel.Pgtable.Tests.{pgd, used_vm}
use unix_kernel.VirtualMem.{Regions}
use unix_kernel.SchedCalls.{
  Threads, deschedule_handler, sleep_handler, make_runnable_handler, yield_handler, get_root_thr,
  sched_find_pcb,
}
use unix_kernel.SchedCalls.Kept.{Keeps, no_thread_lost}
use unix_kernel.SchedCalls.Yield.{AreDeadlocked, yield_handler_lem, yield_handler-deadlocked}

abbrev same_id : ℕ → ℕ
same_id k = k

-- The process 5 is at address 9.
abbrev threads : Threads
threads = record {
  running = 2;
  lists = record { runnable = 3 ∷ []; waiting = sht_new; sleeping = [] };
  blocked_mutex = λ _. 0;
  holder = λ _. 0;
  pcbs = (sht_insert sht_new 5 9).1;
  root_ktcb = λ pcb. if pcb == 9 then 5 else 0;
}

threads-IsRunning : IsRunning 1 same_id threads.lists threads.running
unfolding places count count_sleeping count_waiting find_entry
threads-IsRunning = record {
  valid = record {
    table = sht_new-IsSht;
    keys = λ t k e. ground arith;
    sorted = tt;
    once = λ k. ground arith;
    no_sched = refl;
    no_null = refl;
  };
  not_null = omega arith;
  free = refl;
}

abbrev program : Regions
program = record { txt_base = 0x1000000; txt_len = 100; rodat_base = 0; rodat_len = 0 }

-- The check of the page passes, and `reject` is 0.
no_thread_lost_example :
    ((reject : ℕ)
      → Keeps 1 same_id threads
          (deschedule_handler 1 same_id program used_vm pgd (λ _. pos 0) 7 threads reject).1)
    × ((ticks : ℤ) → Keeps 1 same_id threads (sleep_handler 1 same_id 7 threads ticks).1)
    × ((t : ℤ) → Keeps 1 same_id threads (make_runnable_handler 1 same_id threads t).1)
no_thread_lost_example =
    no_thread_lost 1 same_id (omega arith) program used_vm pgd (λ _. pos 0) 7 threads
      threads-IsRunning (omega arith)

-- Thread 5 waits for mutex 50, which thread 6 holds; 6 for 60, which 5 holds.
abbrev stuck : Threads
stuck = record threads {
  blocked_mutex = λ k. if k == 5 then 50 else if k == 6 then 60 else 0;
  holder = λ m. if m == 50 then 6 else if m == 60 then 5 else 0;
}

stuck-root : get_root_thr stuck (sched_find_pcb stuck (pos 5)) ≡ 5
unfolding get_root_thr sched_find_pcb sht_lookup sht_insert find_entry set_bucket st_hash_get_index
stuck-root = refl

stuck-AreDeadlocked : AreDeadlocked stuck (get_root_thr stuck (sched_find_pcb stuck (pos 5))) 6
stuck-AreDeadlocked = rw stuck-root (record {
  a_not_null = omega arith;
  b_not_null = omega arith;
  a_blocked = omega arith;
  b_blocked = omega arith;
  a_waits = refl;
  b_waits = refl;
})

stuck-not_runnable : sched_runnable_to_running 1 same_id stuck.lists (pos 5) ≡ (0, stuck.lists)
unfolding sched_runnable_to_running take_first taken_runnable
stuck-not_runnable = refl

stuck-not_waiting : sched_is_waiting 1 same_id stuck.lists 5 ≡ 0
unfolding sched_is_waiting not_sched sht_lookup find_entry
stuck-not_waiting = refl

yield_handler-deadlocked_example : yield_handler 1 same_id 100 stuck (pos 5) ≡ none
yield_handler-deadlocked_example =
    yield_handler-deadlocked 1 same_id (omega arith) 100 stuck (pos 5) 6 stuck-not_runnable
      stuck-not_waiting stuck-AreDeadlocked

-- Thread 5 waits for mutex 50, which thread 6 holds, and 6 for none.
abbrev chained : Threads
chained = record stuck { blocked_mutex = λ k. if k == 5 then 50 else 0 }

abbrev chain : ℕ → ℕ
chain k = if k == 5 then 1 else 0

yield_handler_lem_example :
    (r : ℤ × Threads) × (yield_handler 1 same_id 1 chained (pos 5) ≡ some r)
    × Keeps 1 same_id chained r.1
    × ((sched_runnable_to_running 1 same_id chained.lists (pos 5)).0 ≢ 0
        → (r.0 ≡ pos 0)
          × (r.1.running ≡ (sched_runnable_to_running 1 same_id chained.lists (pos 5)).0))
yield_handler_lem_example =
    yield_handler_lem 1 same_id (omega arith) 1 chained (pos 5) chain threads-IsRunning
      (omega arith) (λ j k e. e) (λ k ne blocked. ground arith) (λ k. ground arith)
