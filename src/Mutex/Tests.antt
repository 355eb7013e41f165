-- ===== src/Mutex/Tests.antt =====
-- One mutex and the threads 2 and 3; the scheduler's own thread is 1.
use unix_kernel.Base.{◌==◌, ℕ, ◌≡◌, refl, true, false, List, [], ◌∷◌, ◌++◌, arith}
use unix_kernel.StHash.{sht_new, find_entry}
use unix_kernel.StHash.Laws.{sht_new-IsSht}
use unix_kernel.Sched.Places.{places, count, count_sleeping, count_waiting, IsSched}
use unix_kernel.Mutex.{
  Kernel, System, outside, locking, inside, enter, mutex_lock, lock_resumed, set_at, lock_wait,
  cs_switch,
}
use unix_kernel.Sched.Turns.{sched_next_lem}
use unix_kernel.Sched.Kept.{IsRunning}
use unix_kernel.Mutex.Fairness.{preempts, preempts-runs}
use unix_kernel.Mutex.Inv.{IsSystem}
use unix_kernel.Mutex.Exclusion.{stay, then_step, mutual_exclusion}

abbrev same_id : ℕ → ℕ
same_id k = k

-- Thread 2 runs, thread 3 may run, and the mutex is free.
abbrev start : System
start = record {
  kernel = record {
    running = 2;
    lists = record { runnable = 3 ∷ []; waiting = sht_new; sleeping = [] };
    mutex = record { init = true; available = true; holder = 0; queue = [] };
    blocked = λ _. false;
  };
  place = λ _. outside;
}

start-IsSystem : IsSystem 1 same_id start
unfolding places count count_sleeping count_waiting find_entry
start-IsSystem = record {
  init = refl;
  valid = record {
    table = sht_new-IsSht;
    keys = λ t k e. ground arith;
    sorted = tt;
    once = λ k. ground arith;
    no_sched = refl;
    no_null = refl;
  };
  not_null = omega arith;
  free = refl;
  queued = λ t c. ground arith;
  once = λ t. omega arith;
  handed = λ t at c. ground arith;
  held = λ t at. ground arith;
}

-- Thread 2 locks the mutex.
abbrev locked : System
locked = record {
  kernel = mutex_lock 1 same_id 0 start.kernel;
  place = set_at start.place 2 inside;
}

two_is_inside : locked.place 2 ≡ inside
unfolding set_at
two_is_inside = refl

mutual_exclusion_example : ◌≡◌ {A = ℕ} 2 2 × (locked.kernel.mutex.holder ≡ 2)
mutual_exclusion_example =
    mutual_exclusion 1 same_id (omega arith) start locked start-IsSystem
      (then_step start start locked (stay start)
        (enter 0 start.kernel start.place refl (omega arith)))
      2 2 two_is_inside two_is_inside

-- Thread 2 holds the mutex and sleeps, nobody is runnable, and the scheduler's own thread runs.
abbrev asleep : Kernel
asleep = record {
  running = 1;
  lists = record {
    runnable = [];
    waiting = sht_new;
    sleeping = record { ticks = 9; payload = 2 } ∷ [];
  };
  mutex = record { init = true; available = false; holder = 2; queue = [] };
  blocked = λ _. false;
}

asleep-IsSched : IsSched 1 same_id asleep.lists
unfolding places count count_sleeping count_waiting find_entry
asleep-IsSched = record {
  table = sht_new-IsSht;
  keys = λ t k e. ground arith;
  sorted = ground arith;
  once = λ k. ground arith;
  no_sched = refl;
  no_null = refl;
}

-- The scheduler's own thread locks the mutex at once, although thread 2 holds it.
sched_gets_in : (lock_resumed 1 same_id (mutex_lock 1 same_id 0 asleep)).mutex.holder ≡ 1
unfolding mutex_lock lock_wait lock_resumed cs_switch
sched_gets_in = rw ((sched_next_lem 1 same_id 0 asleep.lists asleep-IsSched).2 refl refl) refl

-- Thread 2 holds the mutex, and 3 waits for it.
abbrev contended : System
contended = record {
  kernel = record {
    running = 2;
    lists = record { runnable = []; waiting = sht_new; sleeping = [] };
    mutex = record { init = true; available = false; holder = 2; queue = 3 ∷ [] };
    blocked = λ t. t == 3;
  };
  place = set_at (set_at (λ _. outside) 2 inside) 3 locking;
}

contended-IsSystem : IsSystem 1 same_id contended
unfolding places count count_sleeping count_waiting find_entry set_at
contended-IsSystem = record {
  init = refl;
  valid = record {
    table = sht_new-IsSht;
    keys = λ t k e. ground arith;
    sorted = tt;
    once = λ k. ground arith;
    no_sched = refl;
    no_null = refl;
  };
  not_null = omega arith;
  free = refl;
  queued = λ t c. ground arith;
  once = λ t. ground arith;
  handed = λ t at c. ground arith;
  held = λ t at. ground arith;
}

start-IsRunning : IsRunning 1 same_id start.kernel.lists start.kernel.running
start-IsRunning = record {
  valid = start-IsSystem.valid;
  not_null = omega arith;
  free = start-IsSystem.free;
}

preempts-runs_example :
    (early later : List ℕ) × (◌≡◌ {A = List ℕ} (5 ∷ 6 ∷ []) (early ++ later))
    × ((preempts 1 same_id early start.kernel).running ≡ 3)
preempts-runs_example =
    preempts-runs 1 same_id (5 ∷ 6 ∷ []) start.kernel [] 3 [] start-IsRunning (omega arith) refl
      (omega arith)
