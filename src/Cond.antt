-- ===== src/Cond.antt =====
-- kern/lock/cond.c: condition variables over Mutex. A condition variable stands at an address, and
-- its queue is the list of the threads in it, from its head on. `wait_cond` is the address of the one
-- in the process of the scheduler's own thread. cond_wait ends at its switch here; once its thread
-- runs again it calls mutex_lock. cond_signal only returns behind its switch. One mutex is modelled.
pub mod Woken
pub mod Kept
mod Tests
use unix_kernel.Base.{
  ℕ, zero, suc, Bool, true, false, not, none, some, List, [], ◌∷◌, ℤ, pos, minus_one, ◌==◌, eq_int,
  if◌then◌else◌, length,
}
use unix_kernel.Sched.{take_last, sched_running_to_runnable}
use unix_kernel.Mutex.{Kernel, cs_switch, mutex_cond_unlock}

-- `cond_t`.
pub record Cond : Type 0 where
  pub init : Bool
  pub wait_ktcbs : List ℕ

pub record Conds : Type 0 where
  pub kernel : Kernel
  pub cond : ℕ → Cond

-- A write to the condition variable at `cv`.
unfoldable pub set_cond : Conds → (cv : ℕ) → Cond → Conds
set_cond s cv c = record s { cond = λ j. if j == cv then c else s.cond j }

unfoldable pub set_queue : Conds → (cv : ℕ) → List ℕ → Conds
set_queue s cv q = set_cond s cv (record (s.cond cv) { wait_ktcbs = q })

abbrev is_empty : List ℕ → Bool
is_empty [] = true
is_empty (x ∷ xs) = false

-- The queue's memory is allocated or not; a failure leaves `init` as it was.
pub cond_init : (calloc_ok : Bool) → Conds → (cv : ℕ) → ℤ × Conds
cond_init calloc_ok s cv =
    if cv == 0
    then (minus_one, s)
    else if calloc_ok
    then (pos 0, set_cond s cv (record { init = true; wait_ktcbs = [] }))
    else (minus_one, set_queue s cv [])

-- `init` is cleared before the queue is looked at.
pub cond_destroy : Conds → (cv : ℕ) → Conds
cond_destroy s cv =
    if cv == 0
    then s
    else if not (s.cond cv).init
    then s
    else set_cond s cv (record (s.cond cv) { init = false })

module _ (sched_ktcb : ℕ) (tid : ℕ → ℕ) where
  -- The running thread joins the queue; the scheduler's own only an empty one.
  pub wait_in : Conds → (cv : ℕ) → Conds
  wait_in s cv =
      let q = (s.cond cv).wait_ktcbs in
      if s.kernel.running == sched_ktcb
      then (if is_empty q then set_queue s cv (sched_ktcb ∷ q) else s)
      else set_queue s cv (s.kernel.running ∷ q)

  pub cond_wait : (now : ℕ) → Conds → (cv : ℕ) → Conds
  cond_wait now s cv =
      let waiting = wait_in s cv in
      if cv == 0
      then s
      else record waiting { kernel = mutex_cond_unlock sched_ktcb tid now waiting.kernel }

  -- The thread that signals does not come back, so it is put into no list.
  pub cond_signal_terminate : Conds → (cv : ℕ) → Conds
  cond_signal_terminate s cv = if cv == 0 then s else elim (take_last (s.cond cv).wait_ktcbs) [
    | none ↦ s
    | some (to_run, left) ↦
        let s1 = set_queue s cv left in
        if s.kernel.running == sched_ktcb
        then s1
        else record s1 { kernel = cs_switch s.kernel to_run }
  ]

  -- One round of cond_broadcast's loop for each thread in the queue.
  pub broadcast_from : (fuel : ℕ) → Conds → (cv : ℕ) → Conds
  broadcast_from zero s cv = s
  broadcast_from (suc fuel) s cv = elim (take_last (s.cond cv).wait_ktcbs) [
    | none ↦ s
    | some (ktcb, left) ↦
        let s1 = set_queue s cv left in
        let (r, lists) = sched_running_to_runnable sched_ktcb tid s.kernel.lists ktcb in
        let rest =
          broadcast_from fuel (record s1 { kernel = record s.kernel { lists = lists } }) cv in
        if eq_int r minus_one then s1 else rest
  ]

  pub cond_broadcast : Conds → (cv : ℕ) → Conds
  cond_broadcast s cv = broadcast_from (suc (length (s.cond cv).wait_ktcbs)) s cv

  -- `to_run` has left its queue, and runs at once.
  pub signal_to : (wait_cond : ℕ) → Conds → (to_run : ℕ) → Conds
  signal_to wait_cond s to_run =
      let k = s.kernel in
      let (r, lists) = sched_running_to_runnable sched_ktcb tid k.lists k.running in
      let q = (s.cond wait_cond).wait_ktcbs in
      let parked = if is_empty q then set_queue s wait_cond (sched_ktcb ∷ q) else s in
      if k.running == sched_ktcb
      then record parked { kernel = cs_switch k to_run }
      else if eq_int r minus_one
      then s
      else record s { kernel = cs_switch (record k { lists = lists }) to_run }

  pub cond_signal : (wait_cond : ℕ) → Conds → (cv : ℕ) → Conds
  cond_signal wait_cond s cv = if cv == 0 then s else elim (take_last (s.cond cv).wait_ktcbs) [
    | none ↦ s
    | some (to_run, left) ↦ signal_to wait_cond (set_queue s cv left) to_run
  ]
