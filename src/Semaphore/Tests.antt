-- ===== src/Semaphore/Tests.antt =====
-- The threads 7 and 8 at a semaphore with one permit.
use unix_kernel.Base.{
  ◌+◌, ◌≤◌, ◌<◌, ◌≡◌, ◌≢◌, refl, true, false, none, some, [], ◌∷◌, arith, pos, length,
}
use unix_kernel.Sched.{take_last}
use unix_kernel.SpinLock.{Mutex}
use unix_kernel.Semaphore.{
  Sem, System, sem_init, sem_wait, sem_signal, cond_init, cond_wait, cond_signal, enqueue, dequeue,
  after_wait, after_signal, wait, signal, Steps, stay, then_step,
}
use unix_kernel.Semaphore.Permits.{one_more, start, sem_lem}

abbrev zeroed : Mutex
zeroed = record { init = false; available = false; threads_count = 0 }

abbrev raw : Sem
raw = record {
  init = false;
  count = pos 0;
  cv = record { init = false; wait_tids = none; lock = zeroed };
  mp = zeroed;
}

abbrev ready : Mutex
ready = record { init = true; available = true; threads_count = 0 }

abbrev one : Sem
one = record {
  init = true;
  count = pos 1;
  cv = record { init = true; wait_tids = some []; lock = ready };
  mp = ready;
}

one_is_made : (sem_init true (some raw) (pos 1)).1 ≡ some one
unfolding sem_init cond_init
one_is_made = refl

-- Both call sem_wait, and the first one sem_signal, before the second is descheduled.
abbrev both : System
both = after_wait (after_wait (start one) 7) 8

abbrev handed : System
handed = after_signal both

first_goes : ((after_wait (start one) 7).asleep 8 ≡ false) × ((after_wait (start one) 7).waking ≡ 0)
unfolding after_wait sem_wait
first_goes = (refl, refl)

both-passed : (both.passed ≡ 7 ∷ []) × (both.waking ≡ 0)
unfolding after_wait sem_wait
both-passed = (refl, refl)

handed-waking : handed.waking ≡ 8
unfolding after_wait after_signal sem_wait sem_signal cond_signal dequeue cond_wait enqueue
    take_last
handed-waking = refl

to_handed : Steps (start one) handed
to_handed =
    then_step _ both _
      (then_step _ (after_wait (start one) 7) _
        (then_step _ (start one) _ (stay (start one))
          (wait (start one) 7 (λ e. omega arith) refl refl))
        (wait (after_wait (start one) 7) 8 (λ e. omega arith) first_goes.0 first_goes.1))
      (signal both both-passed.1)

sem_lem_example :
    (length handed.passed ≤ 1 + handed.signals)
    × (length handed.passed + one_more handed.waking < 1 + handed.signals
        → handed.sem.cv.wait_tids ≡ some [])
    × (handed.waking ≢ 0
        → (s' : System) × Steps handed s'
          × (s'.passed ≡ handed.waking ∷ handed.passed)
          × (s'.waking ≡ 0)
          × (s'.sem ≡ handed.sem))
sem_lem_example = sem_lem 1 raw one handed one_is_made to_handed
