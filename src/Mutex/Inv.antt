-- ===== src/Mutex/Inv.antt =====
-- What holds of one mutex of mutex.c and the threads that use it, between any two steps.
use unix_kernel.Base.{ℕ, ◌≤◌, ◌<◌, ◌≡◌, ◌≢◌, refl, true, false, ==_of_ne}
use unix_kernel.Sched.Places.{places, count, IsSched}
use unix_kernel.Mutex.{Kernel, locking, inside, System, cs_switch}

pub record IsSystem (sched_ktcb : ℕ) (tid : ℕ → ℕ) (s : System) : Type 0 where
  pub init : s.kernel.mutex.init ≡ true
  pub valid : IsSched sched_ktcb tid s.kernel.lists
  pub not_null : s.kernel.running ≢ 0
  pub free : places tid s.kernel.lists s.kernel.running ≡ 0
  -- A thread in the mutex's queue is in mutex_lock and stands in no list of the scheduler.
  pub queued :
      (t : ℕ)
      → 0 < count t s.kernel.mutex.queue
      → (s.place t ≡ locking)
        × (t ≢ 0)
        × (t ≢ sched_ktcb)
        × (t ≢ s.kernel.running)
        × (places tid s.kernel.lists t ≡ 0)
  pub once : (t : ℕ) → count t s.kernel.mutex.queue ≤ 1
  -- A thread in mutex_lock that has left the queue runs, and has been given the mutex.
  pub handed :
      (t : ℕ)
      → s.place t ≡ locking
      → count t s.kernel.mutex.queue ≡ 0
      → (t ≡ s.kernel.running) × (s.kernel.mutex.holder ≡ t) × (s.kernel.mutex.available ≡ false)
  pub held :
      (t : ℕ)
      → s.place t ≡ inside
      → (s.kernel.mutex.holder ≡ t) × (s.kernel.mutex.available ≡ false)

pub cs_switch-to : (k : Kernel) (n : ℕ) → n ≢ 0 → cs_switch k n ≡ record k { running = n }
unfolding cs_switch
cs_switch-to k n ne = rw (==_of_ne n 0 ne) refl
