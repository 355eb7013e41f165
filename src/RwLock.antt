-- ===== src/RwLock.antt =====
-- user/libthread/rwlock.c: the thread library's reader-writer lock. Each semaphore of the lock has one
-- permit: `true` is that it is free, sem_wait takes it once it is, and sem_signal gives it back (see
-- Semaphore.Permits for what a semaphore does with it). `rw_tids` is the list of the keys of the
-- tree of writers. A step is one call of a semaphore, or what stands between two; the calls on the
-- tree hold `st_mp`, so each is one step.
pub mod Weights
pub mod Inv
pub mod Exclusion
mod Tests
use unix_kernel.Base.{
  ℕ, ◌+◌, ◌-◌, ◌≡◌, ◌⊎◌, Bool, true, false, Option, none, some, List, [], ◌∷◌, ◌==◌, has,
  if◌then◌else◌,
}
use unix_kernel.Sched.Places.{count}

-- `rwlock_t`.
pub record RwLock : Type 0 where
  pub read_count : ℕ
  pub rw_tids : List ℕ
  pub enter_mutex : Bool
  pub rw_mutex : Bool
  pub mutex : Bool

-- What rwlock_init makes.
abbrev pub fresh : RwLock
fresh = record { read_count = 0; rw_tids = []; enter_mutex = true; rw_mutex = true; mutex = true }

-- Where a thread stands in rwlock_lock for reading, with the lock, in rwlock_unlock; the same for
-- writing; and in rwlock_downgrade. Each place is the one before the call that its name tells.
pub data Place : Type 0 where
  outside : Place
  read_wait_enter : Place
  read_signal_enter : Place
  read_check_empty : Place
  read_wait_mutex : Place
  read_count_up : Place
  read_wait_rw : Place
  read_signal_mutex : Place
  reading : Place
  done_wait_mutex : Place
  done_count_down : Place
  done_signal_mutex : Place
  write_wait_enter : Place
  write_wait_rw : Place
  writing : Place
  done_signal_rw : Place
  done_signal_enter : Place
  down_signal_enter : Place
  down_signal_rw : Place

-- What st_insert and st_delete do to the keys of the tree (see Splay).
pub insert_key : List ℕ → ℕ → List ℕ
insert_key tids t = if has t tids then tids else t ∷ tids

pub delete_key : List ℕ → ℕ → List ℕ
delete_key [] t = []
delete_key (x ∷ tids) t = let rest = delete_key tids t in if x == t then rest else x ∷ rest

-- The thread calls rwlock_lock, up to the first sem_wait.
pub rwlock_lock : RwLock → (t : ℕ) → (write : Bool) → RwLock × Place
rwlock_lock l t write =
    if write
    then (record l { rw_tids = insert_key l.rw_tids t }, write_wait_enter)
    else (l, read_wait_enter)

-- It calls rwlock_unlock: whether it is a writer is what the tree says.
pub rwlock_unlock : RwLock → (t : ℕ) → RwLock × Place
rwlock_unlock l t = (
  record l { rw_tids = delete_key l.rw_tids t },
  if has t l.rw_tids then done_signal_rw else done_wait_mutex,
)

pub rwlock_downgrade : RwLock → (t : ℕ) → RwLock × Place
rwlock_downgrade l t = (record l { rw_tids = delete_key l.rw_tids t }, down_signal_enter)

abbrev is_empty : List ℕ → Bool
is_empty [] = true
is_empty (t ∷ tids) = false

-- The next step inside a call; `none` is a semaphore whose permit is not free, or no call.
pub next : RwLock → Place → Option (RwLock × Place)
next l outside = none
next l read_wait_enter =
    if l.enter_mutex then some (record l { enter_mutex = false }, read_signal_enter) else none
next l read_signal_enter = some (record l { enter_mutex = true }, read_check_empty)
next l read_check_empty = some (l, if is_empty l.rw_tids then read_wait_mutex else read_wait_enter)
next l read_wait_mutex = if l.mutex then some (record l { mutex = false }, read_count_up) else none
next l read_count_up = some (
  record l { read_count = l.read_count + 1 },
  if l.read_count + 1 == 1 then read_wait_rw else read_signal_mutex,
)
next l read_wait_rw =
    if l.rw_mutex then some (record l { rw_mutex = false }, read_signal_mutex) else none
next l read_signal_mutex = some (record l { mutex = true }, reading)
next l reading = none
next l done_wait_mutex =
    if l.mutex then some (record l { mutex = false }, done_count_down) else none
next l done_count_down = some (
  record l {
    read_count = l.read_count - 1;
    rw_mutex = if l.read_count - 1 == 0 then true else l.rw_mutex;
  },
  done_signal_mutex,
)
next l done_signal_mutex = some (record l { mutex = true }, outside)
next l write_wait_enter =
    if l.enter_mutex then some (record l { enter_mutex = false }, write_wait_rw) else none
next l write_wait_rw = if l.rw_mutex then some (record l { rw_mutex = false }, writing) else none
next l writing = none
next l done_signal_rw = some (record l { rw_mutex = true }, done_signal_enter)
next l done_signal_enter = some (record l { enter_mutex = true }, outside)
next l down_signal_enter = some (record l { enter_mutex = true }, down_signal_rw)
next l down_signal_rw = some (record l { rw_mutex = true }, read_wait_mutex)

pub record System : Type 0 where
  pub lock : RwLock
  pub place : ℕ → Place

unfoldable pub at_place : (ℕ → Place) → ℕ → Place → ℕ → Place
at_place p t x j = if j == t then x else p j

pub move : System → (t : ℕ) → RwLock × Place → System
move s t r = record { lock = r.0; place = at_place s.place t r.1 }

-- A step of one of the threads `ts`.
pub data Step (ts : List ℕ) : System → System → Type 0 where
  lock :
      (s : System) (t : ℕ) (write : Bool)
      → count t ts ≡ 1
      → s.place t ≡ outside
      → Step ts s (move s t (rwlock_lock s.lock t write))
  unlock :
      (s : System) (t : ℕ)
      → (s.place t ≡ reading) ⊎ (s.place t ≡ writing)
      → Step ts s (move s t (rwlock_unlock s.lock t))
  downgrade :
      (s : System) (t : ℕ) → s.place t ≡ writing → Step ts s (move s t (rwlock_downgrade s.lock t))
  go :
      (s : System) (t : ℕ) (r : RwLock × Place)
      → next s.lock (s.place t) ≡ some r
      → Step ts s (move s t r)

-- Any number of steps.
pub data Steps (ts : List ℕ) : System → System → Type 0 where
  stay : (s : System) → Steps ts s s
  then_step : (s s' s'' : System) → Steps ts s s' → Step ts s' s'' → Steps ts s s''
