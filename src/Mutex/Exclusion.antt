-- ===== src/Mutex/Exclusion.antt =====
-- Any order of the steps that threads take with a mutex of mutex.c.
use unix_kernel.Sched.Places.{count, count-take_last}
use unix_kernel.Sched.Puts.{IsPut, running_to_lem}
use unix_kernel.Sched.Turns.{take_last-append}
use unix_kernel.Sched.{take_last}
use unix_kernel.Base.{
  ◌<◌, arith, ==_of_ne, ℕ, ◌≡◌, ◌≢◌, refl, sym, ap, ◌∙◌, some, List, [], ◌∷◌, ◌++◌,
}
use unix_kernel.Mutex.{
  Kernel, Place, System, Step, enter, resume, leave, timer, inside, mutex_unlock,
}
use unix_kernel.Mutex.Inv.{IsSystem}
use unix_kernel.Mutex.Enter.{enter_lem, resume_lem}
use unix_kernel.Mutex.Leave.{leave_lem, timer_lem, unlock-somebody, unlock_to-other}

-- Any number of steps.
pub data Steps (sched_ktcb : ℕ) (tid : ℕ → ℕ) : System → System → Type 0 where
  stay : (s : System) → Steps sched_ktcb tid s s
  then_step :
      (s s' s'' : System)
      → Steps sched_ktcb tid s s'
      → Step sched_ktcb tid s' s''
      → Steps sched_ktcb tid s s''

module _ (sched_ktcb : ℕ) (tid : ℕ → ℕ) (sched_not_null : sched_ktcb ≢ 0) where
  Step-IsSystem :
      (s s' : System)
      → IsSystem sched_ktcb tid s
      → Step sched_ktcb tid s s'
      → IsSystem sched_ktcb tid s'
  Step-IsSystem s s' v (enter now k p out ne) =
      enter_lem sched_ktcb tid sched_not_null now k p v out ne
  Step-IsSystem s s' v (resume k p at) = resume_lem sched_ktcb tid sched_not_null k p v at
  Step-IsSystem s s' v (leave k p at) = leave_lem sched_ktcb tid sched_not_null k p v at
  Step-IsSystem s s' v (timer now k p out) = timer_lem sched_ktcb tid sched_not_null now k p v out

  -- Every step keeps the system well formed, and so does any number of them.
  pub Steps-IsSystem :
      (s s' : System)
      → IsSystem sched_ktcb tid s
      → Steps sched_ktcb tid s s'
      → IsSystem sched_ktcb tid s'
  Steps-IsSystem s s' v (stay _) = v
  Steps-IsSystem s s'' v (then_step _ s' _ before step) =
      Step-IsSystem s' s'' (Steps-IsSystem s s' v before) step

  -- From a well-formed system, after any sequence of calls of mutex_lock and mutex_unlock by threads
  -- other than the scheduler's own, of resumptions and of timer switches outside mutex_lock: at most
  -- one thread is past mutex_lock and has not unlocked, and it is the mutex's holder.
  pub mutual_exclusion :
      (s s' : System)
      → IsSystem sched_ktcb tid s
      → Steps sched_ktcb tid s s'
      → (a b : ℕ) → s'.place a ≡ inside
      → s'.place b ≡ inside
      → (a ≡ b) × (s'.kernel.mutex.holder ≡ a)
  mutual_exclusion s s' v steps a b at_a at_b =
      let w = Steps-IsSystem s s' v steps in
      (sym (w.held a at_a).0 ∙ (w.held b at_b).0, (w.held a at_a).0)

  -- In a well-formed system, when a thread other than the scheduler's own unlocks a mutex for which
  -- others wait, the one that has waited longest holds it and runs at once; the others stay in the
  -- queue in their order, the mutex does not become available, and the thread that unlocked is put
  -- into the scheduler's lists.
  pub mutex_unlock_lem :
      (k : Kernel) (p : ℕ → Place) (xs : List ℕ) (n : ℕ)
      → IsSystem sched_ktcb tid (record { kernel = k; place = p })
      → k.running ≢ sched_ktcb
      → k.mutex.queue ≡ xs ++ n ∷ []
      → ((mutex_unlock sched_ktcb tid k).running ≡ n)
        × ((mutex_unlock sched_ktcb tid k).mutex.holder ≡ n)
        × ((mutex_unlock sched_ktcb tid k).mutex.queue ≡ xs)
        × ((mutex_unlock sched_ktcb tid k).mutex.available ≡ k.mutex.available)
        × IsPut sched_ktcb tid k.running k.lists (mutex_unlock sched_ktcb tid k).lists
  mutex_unlock_lem k p xs n s ne_sched queue_is =
      let last : take_last k.mutex.queue ≡ some (n, xs) =
        ap take_last queue_is ∙ take_last-append xs n in
      let there : 0 < count n k.mutex.queue =
        (let c = count-take_last n n k.mutex.queue xs last in ground arith) in
      let k' = record k { mutex = record k.mutex { queue = xs } } in
      let put =
        running_to_lem sched_ktcb tid k.lists k.running 0 s.valid s.free s.not_null ne_sched in
      rw
        (
          unlock-somebody sched_ktcb tid sched_not_null k n xs s.init last,
          unlock_to-other sched_ktcb tid sched_not_null k' n (s.queued n there).1
              (==_of_ne k.running sched_ktcb ne_sched) put.0,
        )
        (refl, refl, refl, refl, put.1)
