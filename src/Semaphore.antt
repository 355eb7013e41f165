-- ===== src/Semaphore.antt =====
-- user/libthread/sem.c and cond.c: the thread library's semaphores, over its condition variables. A
-- queue is the list of its data from the head on, `none` where queue_new got no memory. sem_wait and
-- sem_signal hold the semaphore's mutex, so that sem_wait up to its cond_wait's deschedule, and
-- sem_signal up to the loop of cond_signal, are one step each; that loop keeps the mutex. A count is
-- taken to fit an int.
pub mod Permits
mod Tests
use unix_kernel.Base.{
  ℕ, suc, ◌≡◌, ◌≢◌, ◌⊎◌, Bool, true, false, not, ◌&&◌, Option, none, some, List, [], ◌∷◌, ◌++◌, ℤ,
  pos, minus_one, ◌==◌, lt_int, int_inc, int_dec, if◌then◌else◌,
}
use unix_kernel.Sched.{take_last}
use unix_kernel.SpinLock.{Mutex, mutex_idle, mutex_destroy, mutex_init}

-- `cond_t`.
pub record Cond : Type 0 where
  pub init : Bool
  pub wait_tids : Option (List ℕ)
  pub lock : Mutex

-- `sem_t`.
pub record Sem : Type 0 where
  pub init : Bool
  pub count : ℤ
  pub cv : Cond
  pub mp : Mutex

abbrev pub initialised : Mutex → Mutex
initialised mp = record mp { init = true; available = true }

-- The queue's memory is allocated or not; `init` is set before that.
pub cond_init : (queue_ok : Bool) → Cond → ℤ × Cond
cond_init queue_ok cv =
    if queue_ok
    then (pos 0, record { init = true; wait_tids = some []; lock = initialised cv.lock })
    else (minus_one, record cv { init = true; wait_tids = none })

-- queue.c's queue_empty answers -1 for NULL.
pub is_empty : Option (List ℕ) → Bool
is_empty none = true
is_empty (some []) = true
is_empty (some (t ∷ q)) = false

pub cond_idle : Cond → Bool
cond_idle cv = cv.init && is_empty cv.wait_tids && mutex_idle cv.lock

-- `none` is a panic of mutex_destroy.
pub cond_destroy : Cond → Option Cond
cond_destroy cv =
    if not cv.init
    then some cv
    else if not (is_empty cv.wait_tids)
    then some cv
    else elim (mutex_destroy cv.lock) [
      | none ↦ none
      | some lock ↦ some (record cv { init = false; lock = lock })
    ]

-- queue.c's enqueue and dequeue. The node's memory is allocated or not; 0 is NULL.
pub enqueue : (node_ok : Bool) → ℕ → Option (List ℕ) → Option (List ℕ)
enqueue node_ok t none = none
enqueue node_ok t (some q) = if node_ok then some (t ∷ q) else some q

pub dequeue : Option (List ℕ) → ℕ × Option (List ℕ)
dequeue none = (0, none)
dequeue (some q) = elim (take_last q) [ none ↦ (0, some q) | some (t, left) ↦ (t, some left) ]

-- cond_wait up to the unlocking of the mutex: the thread `tid` joins the queue.
pub cond_wait : (node_ok : Bool) → Cond → (tid : ℕ) → Cond
cond_wait node_ok cv tid = record cv { wait_tids = enqueue node_ok tid cv.wait_tids }

-- cond_signal up to its loop: the thread that make_runnable is called for, or 0.
pub cond_signal : Cond → ℕ × Cond
cond_signal cv = let (tid, left) = dequeue cv.wait_tids in (tid, record cv { wait_tids = left })

pub sem_init : (queue_ok : Bool) → Option Sem → (count : ℤ) → ℤ × Option Sem
sem_init queue_ok none count = (minus_one, none)
sem_init queue_ok (some sem) count = (
  pos 0,
  some (record {
    init = true;
    count = count;
    cv = (cond_init queue_ok sem.cv).1;
    mp = initialised sem.mp;
  }),
)

-- Whether the thread waits, and the semaphore.
pub sem_wait : (node_ok : Bool) → Sem → (tid : ℕ) → Bool × Sem
sem_wait node_ok sem tid =
    let less : Sem = record sem { count = int_dec sem.count } in
    if lt_int less.count (pos 0)
    then (true, record less { cv = cond_wait node_ok less.cv tid })
    else (false, less)

-- The thread to wake, or 0, and the semaphore.
pub sem_signal : Sem → ℕ × Sem
sem_signal sem =
    let more : Sem = record sem { count = int_inc sem.count } in
    let (tid, cv) = cond_signal more.cv in
    if lt_int more.count (pos 1) then (tid, record more { cv = cv }) else (0, more)

pub sem_idle : Sem → Bool
sem_idle sem = sem.init && cond_idle sem.cv && mutex_idle sem.mp

-- `none` is a panic of mutex_destroy.
pub sem_destroy : Sem → Option Sem
sem_destroy sem =
    if mutex_idle sem.mp && cond_idle sem.cv
    then elim (cond_destroy sem.cv) [
      | none ↦ none
      | some cv ↦ elim (mutex_destroy sem.mp) [
        | none ↦ none
        | some mp ↦ some (record sem { init = false; cv = cv; mp = mp })
      ]
    ]
    else some sem

-- `passed` logs the threads whose sem_wait has ended, the latest first, and `signals` counts the calls
-- of sem_signal, which any thread may make. `waking` is the thread for which a cond_signal calls
-- make_runnable, or 0, and `asleep` tells which threads deschedule has taken.
pub record System : Type 0 where
  pub sem : Sem
  pub passed : List ℕ
  pub signals : ℕ
  pub waking : ℕ
  pub asleep : ℕ → Bool

pub after_wait : System → ℕ → System
after_wait s t =
    let (waits, sem) = sem_wait true s.sem t in
    if waits then record s { sem = sem } else record s { sem = sem; passed = t ∷ s.passed }

pub after_signal : System → System
after_signal s =
    let (tid, sem) = sem_signal s.sem in
    record s { sem = sem; signals = suc s.signals; waking = tid }

pub set_asleep : System → ℕ → Bool → System
set_asleep s t b = record s { asleep = λ j. if j == t then b else s.asleep j }

-- A round of cond_signal's loop in which make_runnable succeeds: deschedule has taken the thread.
pub woken : System → System
woken s = record (set_asleep s s.waking false) { passed = s.waking ∷ s.passed; waking = 0 }

-- Memory for the queue's nodes is there. A thread that waits in the queue may be descheduled late.
pub data Step : System → System → Type 0 where
  wait : (s : System) (t : ℕ) → t ≢ 0 → s.asleep t ≡ false → s.waking ≡ 0 → Step s (after_wait s t)
  deschedule :
      (s : System) (t : ℕ) (xs ys : List ℕ)
      → (s.waking ≡ t) ⊎ (s.sem.cv.wait_tids ≡ some (xs ++ t ∷ ys))
      → Step s (set_asleep s t true)
  signal : (s : System) → s.waking ≡ 0 → Step s (after_signal s)
  wake : (s : System) → s.waking ≢ 0 → s.asleep s.waking ≡ true → Step s (woken s)

-- Any number of steps.
pub data Steps : System → System → Type 0 where
  stay : (s : System) → Steps s s
  then_step : (s s' s'' : System) → Steps s s' → Step s' s'' → Steps s s''
