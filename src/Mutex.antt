-- ===== src/Mutex.antt =====
-- kern/lock/mutex.c and the change of threads in kern/context_switch/cs.c, for one mutex. mutex_lock
-- and mutex_unlock switch threads in their middle: here mutex_lock ends at its switch, and
-- `lock_resumed` is what it still does once its thread runs again; after the switch of mutex_unlock
-- nothing but `if_recover` is left. Interrupts are off from the first step of each to its switch, so
-- each is one step. `Step` adds what the threads do with it, and the timer, whose switch puts the
-- running thread among the runnable ones.
pub mod Next
pub mod Inv
pub mod Enter
pub mod Leave
pub mod Exclusion
pub mod Fairness
mod Tests
use unix_kernel.Base.{
  ℕ, Bool, true, false, not, Option, none, some, List, [], ◌∷◌, ℤ, pos, negsuc, minus_one, ◌==◌,
  ◌≡◌, ◌≢◌, if◌then◌else◌,
}
use unix_kernel.Sched.{Sched, take_last, sched_next, sched_running_to_runnable}

-- `mutex_t`. The queue is the list of the threads in it, from its head on.
pub record Mutex : Type 0 where
  pub init : Bool
  pub available : Bool
  pub holder : ℕ
  pub queue : List ℕ

-- `blocked` is whether a thread's `blocked_mutex` is this mutex.
pub record Kernel : Type 0 where
  pub running : ℕ
  pub lists : Sched
  pub mutex : Mutex
  pub blocked : ℕ → Bool

unfoldable pub set_at : {A : Type 0} → (ℕ → A) → ℕ → A → ℕ → A
set_at f k x j = if j == k then x else f j

-- cs_switch does nothing when `to` is NULL or the running thread.
pub cs_switch : Kernel → ℕ → Kernel
cs_switch k to = if to == 0 then k else record k { running = to }

-- The queue's memory is allocated or not.
pub mutex_init : Mutex → (calloc_ok : Bool) → ℤ × Mutex
mutex_init mp calloc_ok =
    let fields = record mp { available = true; holder = 0; queue = [] } in
    if calloc_ok then (pos 0, record fields { init = true }) else (minus_one, fields)

module _ (sched_ktcb : ℕ) (tid : ℕ → ℕ) where
  -- The running thread joins the queue and the next one runs.
  pub lock_wait : (now : ℕ) → Kernel → Kernel
  lock_wait now k =
      let (next, lists) = sched_next sched_ktcb tid now k.lists in
      cs_switch
        (record k {
          blocked = set_at k.blocked k.running true;
          mutex = record k.mutex { queue = k.running ∷ k.mutex.queue };
          lists = lists;
        })
        next

  pub mutex_lock : (now : ℕ) → Kernel → Kernel
  mutex_lock now k =
      if not k.mutex.init
      then k
      else if not k.mutex.available
      then lock_wait now k
      else record k { mutex = record k.mutex { available = false; holder = k.running } }

  pub lock_resumed : Kernel → Kernel
  lock_resumed k = record k {
    blocked = set_at k.blocked k.running false;
    mutex = record k.mutex { holder = k.running };
  }

  -- The mutex goes to the thread `to_run`, which runs at once.
  pub hand_over : Kernel → ℕ → Kernel
  hand_over k to_run =
      cs_switch
        (record k {
          blocked = set_at k.blocked to_run false;
          mutex = record k.mutex { holder = to_run };
        })
        to_run

  -- `to_run` has left the queue. ARG_ERR is -1 too, but is not answered here.
  pub unlock_to : Kernel → ℕ → Kernel
  unlock_to k to_run =
      if k.running == sched_ktcb
      then hand_over k to_run
      else elim (sched_running_to_runnable sched_ktcb tid k.lists k.running).0 [
        | pos n ↦
            hand_over
              (record k { lists = (sched_running_to_runnable sched_ktcb tid k.lists k.running).1 })
              to_run
        | negsuc n ↦ k
      ]

  pub mutex_unlock : Kernel → Kernel
  mutex_unlock k = if not k.mutex.init then k else elim (take_last k.mutex.queue) [
    | none ↦ record k { mutex = record k.mutex { available = true; holder = 0 } }
    | some (to_run, left) ↦ unlock_to (record k { mutex = record k.mutex { queue = left } }) to_run
  ]

  -- cond_wait's unlock: the running thread, which stands in a queue already, does not become runnable.
  pub mutex_cond_unlock : (now : ℕ) → Kernel → Kernel
  mutex_cond_unlock now k =
      let (next, lists) = sched_next sched_ktcb tid now k.lists in
      if not k.mutex.init then k else elim (take_last k.mutex.queue) [
        | none ↦
            cs_switch
              (record k { mutex = record k.mutex { available = true; holder = 0 }; lists = lists })
              next
        | some (to_run, left) ↦
            hand_over (record k { mutex = record k.mutex { queue = left } }) to_run
      ]

  -- timer_handler of kern/driver/timer_driver.c behind the tick: the switch.
  pub preempt : (now : ℕ) → Kernel → Kernel
  preempt now k =
      let lists = (sched_running_to_runnable sched_ktcb tid k.lists k.running).1 in
      let (next, left) = sched_next sched_ktcb tid now lists in
      if k.running == sched_ktcb then k else cs_switch (record k { lists = left }) next

-- Where a thread stands: before the mutex, in mutex_lock behind its switch, or past mutex_lock.
pub data Place : Type 0 where
  outside : Place
  locking : Place
  inside : Place

pub record System : Type 0 where
  pub kernel : Kernel
  pub place : ℕ → Place

-- The scheduler's own thread does not use the mutex.
pub data Step (sched_ktcb : ℕ) (tid : ℕ → ℕ) : System → System → Type 0 where
  enter :
      (now : ℕ) (k : Kernel) (p : ℕ → Place)
      → p k.running ≡ outside
      → k.running ≢ sched_ktcb
      → Step sched_ktcb tid
          (record { kernel = k; place = p })
          (record {
            kernel = mutex_lock sched_ktcb tid now k;
            place = set_at p k.running (if k.mutex.available then inside else locking);
          })
  resume :
      (k : Kernel) (p : ℕ → Place)
      → p k.running ≡ locking
      → Step sched_ktcb tid
          (record { kernel = k; place = p })
          (record { kernel = lock_resumed sched_ktcb tid k; place = set_at p k.running inside })
  leave :
      (k : Kernel) (p : ℕ → Place)
      → p k.running ≡ inside
      → Step sched_ktcb tid
          (record { kernel = k; place = p })
          (record { kernel = mutex_unlock sched_ktcb tid k; place = set_at p k.running outside })
  timer :
      (now : ℕ) (k : Kernel) (p : ℕ → Place)
      → p k.running ≢ locking
      → Step sched_ktcb tid
          (record { kernel = k; place = p })
          (record { kernel = preempt sched_ktcb tid now k; place = p })
