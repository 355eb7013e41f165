-- ===== src/RwLock/Tests.antt =====
-- Thread 1 takes the lock for writing, and thread 2 comes to read.
use unix_kernel.Base.{ℕ, ◌≡◌, ◌≢◌, refl, true, false, some, List, [], ◌∷◌}
use unix_kernel.Sched.Places.{count}
use unix_kernel.RwLock.{
  RwLock, System, write_wait_rw, writing, reading, done_wait_mutex, done_signal_rw, fresh,
  insert_key, rwlock_lock, rwlock_unlock, next, at_place, move, lock, go, Steps, stay, then_step,
}
use unix_kernel.RwLock.Weights.{counted, total}
use unix_kernel.RwLock.Exclusion.{start, rw_exclusion}

abbrev both : List ℕ
both = 1 ∷ 2 ∷ []

abbrev entering : RwLock
entering = record fresh { rw_tids = 1 ∷ []; enter_mutex = false }

abbrev taken : RwLock
taken = record entering { rw_mutex = false }

abbrev wanted : System
wanted = move (start both) 1 (rwlock_lock fresh 1 true)

abbrev entered : System
entered = move wanted 1 (entering, write_wait_rw)

abbrev written : System
written = move entered 1 (taken, writing)

abbrev contended : System
contended = move written 2 (rwlock_lock taken 2 false)

to_contended : Steps both (start both) contended
unfolding count next at_place move rwlock_lock insert_key
to_contended =
    then_step _ written _
      (then_step _ entered _
        (then_step _ wanted _
          (then_step _ (start both) _ (stay (start both)) (lock (start both) 1 true refl refl))
          (go wanted 1 (entering, write_wait_rw) refl))
        (go entered 1 (taken, writing) refl))
      (lock written 2 false refl refl)

rw_exclusion_example :
    ((t u : ℕ) → contended.place t ≡ writing → contended.place u ≡ writing → t ≡ u)
    × ((t u : ℕ) → contended.place t ≡ writing → contended.place u ≢ reading)
    × (contended.lock.read_count ≡ total counted contended.place both)
    × ((t : ℕ) → contended.place t ≡ writing → (rwlock_unlock contended.lock t).1 ≡ done_signal_rw)
    × ((t : ℕ) → contended.place t ≡ reading → (rwlock_unlock contended.lock t).1 ≡ done_wait_mutex)
rw_exclusion_example = rw_exclusion both contended to_contended

-- After rwlock_downgrade and before the thread reads, another thread may write: the permit of
-- `rw_mutex` is free in between.
abbrev given_up : RwLock
given_up = record fresh { rw_tids = 2 ∷ []; enter_mutex = false }

writer_comes_in : next given_up write_wait_rw ≡ some (record given_up { rw_mutex = false }, writing)
unfolding next
writer_comes_in = refl
