-- ===== src/SpinLock.antt =====
-- user/libthread/mutex.c: the thread library's spinning mutex. Each xadd and each xchg is one step, so
-- that other threads may come between any two; the tests before them read only `init`. A thread that
-- spins makes one `try` for each round of mutex_lock's loop. For NULL, mutex_destroy, mutex_lock and
-- mutex_unlock return at once; below they have a mutex.
pub mod Inv
pub mod Exclusion
mod Tests
use unix_kernel.Base.{
  ℕ, suc, ◌+◌, ◌-◌, ◌≡◌, Bool, true, false, not, ◌&&◌, Option, none, some, ℤ, pos, minus_one, ◌==◌,
  if◌then◌else◌, List,
}
use unix_kernel.Sched.Places.{count}

-- `mutex_t`. `available` is 0 or 1.
pub record Mutex : Type 0 where
  pub init : Bool
  pub available : Bool
  pub threads_count : ℕ

-- The old value of `available`, and the mutex with the new one.
pub xchg_available : Mutex → Bool → Bool × Mutex
xchg_available mp value = (mp.available, record mp { available = value })

-- `none` is NULL. The count is left as it was.
pub mutex_init : Option Mutex → ℤ × Option Mutex
mutex_init none = (minus_one, none)
mutex_init (some mp) = (pos 0, some (record mp { init = true; available = true }))

-- `none` is a panic.
pub mutex_destroy : Mutex → Option Mutex
mutex_destroy mp =
    if not mp.init
    then none
    else if not mp.available
    then none
    else if not (mp.threads_count == 0)
    then none
    else some (record mp { init = false })

pub mutex_idle : Mutex → Bool
mutex_idle mp = mp.init && mp.available && (mp.threads_count == 0)

-- mutex_lock's xadd.
pub lock_count : Mutex → Mutex
lock_count mp = if mp.init then record mp { threads_count = mp.threads_count + 1 } else mp

-- One round of its loop, and whether it was the last.
pub lock_try : Mutex → Bool × Mutex
lock_try mp = xchg_available mp false

-- mutex_unlock's xchg, and its xadd.
pub unlock_open : Mutex → Mutex
unlock_open mp = if mp.init then (xchg_available mp true).1 else mp

pub unlock_count : Mutex → Mutex
unlock_count mp = record mp { threads_count = mp.threads_count - 1 }

-- Where a thread stands: before the mutex, in the loop, past mutex_lock, or between the two steps of
-- mutex_unlock.
pub data Place : Type 0 where
  outside : Place
  spinning : Place
  inside : Place
  leaving : Place

pub record System : Type 0 where
  pub mutex : Mutex
  pub place : ℕ → Place

unfoldable pub at_place : (ℕ → Place) → ℕ → Place → ℕ → Place
at_place p t x j = if j == t then x else p j

-- A thread's round in the loop.
pub spin : System → ℕ → System
spin s t =
    let (got, mp) = lock_try s.mutex in
    record { mutex = mp; place = at_place s.place t (if got then inside else spinning) }

-- A step of one of the threads `ts`.
pub data Step (ts : List ℕ) : System → System → Type 0 where
  arrive :
      (s : System) (t : ℕ)
      → count t ts ≡ 1
      → s.mutex.init ≡ true
      → s.place t ≡ outside
      → Step ts s (record { mutex = lock_count s.mutex; place = at_place s.place t spinning })
  try : (s : System) (t : ℕ) → s.place t ≡ spinning → Step ts s (spin s t)
  open_up :
      (s : System) (t : ℕ)
      → s.place t ≡ inside
      → Step ts s (record { mutex = unlock_open s.mutex; place = at_place s.place t leaving })
  depart :
      (s : System) (t : ℕ)
      → s.place t ≡ leaving
      → Step ts s (record { mutex = unlock_count s.mutex; place = at_place s.place t outside })

-- Any number of steps.
pub data Steps (ts : List ℕ) : System → System → Type 0 where
  stay : (s : System) → Steps ts s s
  then_step : (s s' s'' : System) → Steps ts s s' → Step ts s' s'' → Steps ts s s''
