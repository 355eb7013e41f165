-- ===== src/Sched.antt =====
-- kern/sched/sched.c: the lists that hold the threads which do not run. A thread is the address of
-- its ktcb, 0 for NULL. `runnable_ktcbs` is the list of the threads in the st_queue from its head on,
-- so the oldest is last; StQueue.Laws relates such lists to the nodes in memory. The address of
-- `sched_ktcb` and the threads' ids (`ktcb->tcb->tid`) are parameters, and the tick count `now` is an
-- argument. ARG_ERR of kern/inc/reporter.h is -1. Interrupts are off while a function works, so each
-- is one step; the node fields of a ktcb are its own, so a thread that is in none of the lists can be
-- put into any.
pub mod Places
pub mod Puts
pub mod Takes
pub mod Turns
pub mod Kept
mod Tests
use unix_kernel.Base.{
  ℕ, zero, suc, Bool, Option, none, some, List, [], ◌∷◌, ℤ, pos, negsuc, minus_one, ◌==◌,
  if◌then◌else◌, has,
}
use unix_kernel.TimedQueue.{TimedQueue, tq_insert, tq_get, tq_find, tq_delete}
use unix_kernel.StHash.{Sht, sht_insert, sht_delete, sht_lookup}

pub record Sched : Type 0 where
  pub runnable : List ℕ
  pub waiting : Sht
  pub sleeping : TimedQueue

-- st_dequeue on the list of data.
unfoldable pub take_last : List ℕ → Option (ℕ × List ℕ)
take_last [] = none
take_last (x ∷ xs) = elim (take_last xs) [ none ↦ some (x, []) | some (y, ys) ↦ some (y, x ∷ ys) ]

-- st_queue_delete on the list of data.
unfoldable pub take_first : (ℕ → Bool) → List ℕ → Option (ℕ × List ℕ)
take_first test [] = none
take_first test (x ∷ xs) =
    let rest = take_first test xs in
    if test x then some (x, xs) else elim rest [ none ↦ none | some (y, ys) ↦ some (y, x ∷ ys) ]

module _ (sched_ktcb : ℕ) (tid : ℕ → ℕ) where
  -- The last check of the functions that take a thread from a list.
  unfoldable pub not_sched : ℕ → ℕ
  not_sched ktcb = if ktcb == sched_ktcb then 0 else ktcb

  unfoldable pub taken_runnable : Sched → Option (ℕ × List ℕ) → ℕ × Sched
  taken_runnable s none = (0, s)
  taken_runnable s (some (ktcb, left)) = (not_sched ktcb, record s { runnable = left })

  -- The id -1 asks for any thread. No thread has another negative id.
  unfoldable pub sched_runnable_to_running : Sched → ℤ → ℕ × Sched
  sched_runnable_to_running s (pos t) =
      if t == tid sched_ktcb
      then (0, s)
      else taken_runnable s (take_first (λ ktcb. t == tid ktcb) s.runnable)
  sched_runnable_to_running s (negsuc zero) = taken_runnable s (take_last s.runnable)
  sched_runnable_to_running s (negsuc (suc n)) = (0, s)

  pub sched_running_to_runnable : Sched → ℕ → ℤ × Sched
  sched_running_to_runnable s ktcb =
      if ktcb == sched_ktcb
      then (minus_one, s)
      else if has ktcb s.runnable
      then (minus_one, s)
      else (pos 0, record s { runnable = ktcb ∷ s.runnable })

  pub sched_running_to_sleep : Sched → (ktcb ticks : ℕ) → ℤ × Sched
  sched_running_to_sleep s ktcb ticks = elim (tq_find ktcb s.sleeping) [
    | pos found ↦
        if found == 0
        then (pos 0, record s { sleeping = tq_insert ktcb ticks s.sleeping })
        else (pos 0, s)
    | negsuc n ↦ (pos 0, s)
  ]

  pub sched_sleep_to_running : (now : ℕ) → Sched → ℕ × Sched
  sched_sleep_to_running now s =
      let (ktcb, left) = tq_get now s.sleeping in (ktcb, record s { sleeping = left })

  pub sched_running_to_waiting : Sched → ℕ → ℤ × Sched
  sched_running_to_waiting s ktcb =
      if ktcb == sched_ktcb
      then (minus_one, s)
      else if sht_lookup s.waiting (tid ktcb) == 0
      then (pos 0, record s { waiting = (sht_insert s.waiting (tid ktcb) ktcb).1 })
      else (minus_one, s)

  pub sched_waiting_to_running : Sched → ℕ → ℕ × Sched
  sched_waiting_to_running s t =
      if t == tid sched_ktcb
      then (0, s)
      else let (ktcb, left) = sht_delete s.waiting t in
        (not_sched ktcb, record s { waiting = left })

  unfoldable pub sched_is_waiting : Sched → ℕ → ℕ
  sched_is_waiting s t = if t == tid sched_ktcb then 0 else not_sched (sht_lookup s.waiting t)

  pub sched_delete : Sched → ℕ → ℤ × Sched
  sched_delete s ktcb =
      let (run, s1) = sched_runnable_to_running s (pos (tid ktcb)) in
      let (wait, s2) = sched_waiting_to_running s1 (tid ktcb) in
      let (ticks, left) = tq_delete ktcb s2.sleeping in
      if run == 0
      then (if wait == 0
          then (if ticks == 0 then minus_one else pos 0, record s2 { sleeping = left })
          else (pos 0, s2))
      else (pos 0, s1)

  pub sched_next : (now : ℕ) → Sched → ℕ × Sched
  sched_next now s =
      let (sleeper, s1) = sched_sleep_to_running now s in
      let (oldest, s2) = sched_runnable_to_running s1 minus_one in
      if sleeper == 0
      then (if oldest == 0 then (sched_ktcb, s2) else (oldest, s2))
      else (sleeper, s1)
