-- ===== src/SchedCalls.antt =====
-- The system calls that change which thread runs: kern/syscall/deschedule.c, make_runnable.c, sleep.c
-- and yield.c. Interrupts are off from their first look at the lists to the switch, so each is one
-- step up to its switch; behind it they only answer. A thread is the address of its ktcb, as in
-- Sched; `blocked_mutex` and `holder` are those fields of all threads and mutexes, 0 for NULL.
-- The walk of yield along the holders runs on fuel, and `none` says that it has run out.
pub mod Kept
pub mod Yield
mod Tests
use unix_kernel.Base.{
  ℕ, zero, suc, ◌+◌, ◌%◌, ◌^◌, Bool, not, Option, none, some, ℤ, pos, negsuc, minus_one, ◌==◌,
  eq_int, lt_int, to_word, if◌then◌else◌,
}
use unix_kernel.StHash.{Sht, sht_lookup}
use unix_kernel.Sched.{
  Sched, sched_next, sched_running_to_runnable, sched_running_to_sleep, sched_running_to_waiting,
  sched_runnable_to_running, sched_waiting_to_running, sched_is_waiting,
}
use unix_kernel.Pgtable.{Vm}
use unix_kernel.VirtualMem.{Regions, vm_mem_region_check}

-- `pcbs` is sched.c's table of processes, and `root_ktcb` gives the ktcb of the root thread of the
-- process at an address, 0 where it has none.
pub record Threads : Type 0 where
  pub running : ℕ
  pub lists : Sched
  pub blocked_mutex : ℕ → ℕ
  pub holder : ℕ → ℕ
  pub pcbs : Sht
  pub root_ktcb : ℕ → ℕ

-- cs_switch does nothing when `to` is NULL or the running thread.
pub cs_switch : Threads → ℕ → Threads
cs_switch c to = if to == 0 then c else record c { running = to }

pub sched_find_pcb : Threads → ℤ → ℕ
sched_find_pcb c pid = sht_lookup c.pcbs (to_word pid)

pub get_root_thr : Threads → (pcb : ℕ) → ℕ
get_root_thr c pcb = if pcb == 0 then 0 else c.root_ktcb pcb

-- The loop of yield: the holder, at the end of the chain, that no mutex blocks, or NULL.
pub find_holder : (fuel : ℕ) → Threads → (cur_holder : ℕ) → Option ℕ
find_holder zero c h = none
find_holder (suc fuel) c h =
    let rest = find_holder fuel c (c.holder (c.blocked_mutex h)) in
    if h == 0 then some 0 else if c.blocked_mutex h == 0 then some h else rest

module _ (sched_ktcb : ℕ) (tid : ℕ → ℕ) where
  pub switch_to_next : (now : ℕ) → Threads → Threads
  switch_to_next now c =
      let (next, lists) = sched_next sched_ktcb tid now c.lists in
      cs_switch (record c { lists = lists }) next

  -- `read_int` reads an int of user memory.
  pub deschedule_handler :
      Regions
      → Vm
      → (pgd : ℕ) → (read_int : ℕ → ℤ) → (now : ℕ) → Threads
      → (reject : ℕ) → ℤ × Threads
  deschedule_handler pcb vm pgd read_int now c reject =
      let (r, lists) = sched_running_to_waiting sched_ktcb tid c.lists c.running in
      if lt_int (vm_mem_region_check pcb vm pgd reject 4) (pos 0)
      then (minus_one, c)
      else if not (eq_int (read_int reject) (pos 0))
      then (pos 0, c)
      else if eq_int r minus_one
      then (minus_one, record c { lists = lists })
      else (pos 0, switch_to_next now (record c { lists = lists }))

  -- The running thread becomes runnable and `to_run` runs.
  pub run_instead : Threads → (to_run : ℕ) → ℤ × Threads
  run_instead c to_run =
      let (r, lists) = sched_running_to_runnable sched_ktcb tid c.lists c.running in
      if eq_int r minus_one
      then (minus_one, record c { lists = lists })
      else (pos 0, cs_switch (record c { lists = lists }) to_run)

  pub make_runnable_handler : Threads → (t : ℤ) → ℤ × Threads
  make_runnable_handler c t =
      let (to_run, lists) = sched_waiting_to_running sched_ktcb tid c.lists (to_word t) in
      if to_run == 0
      then (minus_one, record c { lists = lists })
      else run_instead (record c { lists = lists }) to_run

  -- The sum of the ticks wraps at 32 bits.
  pub sleep_handler : (now : ℕ) → Threads → (ticks : ℤ) → ℤ × Threads
  sleep_handler now c (pos zero) = (pos 0, c)
  sleep_handler now c (pos (suc n)) =
      let (_, lists) =
        sched_running_to_sleep sched_ktcb tid c.lists c.running ((suc n + now) % 2 ^ 32) in
      (pos 0, switch_to_next now (record c { lists = lists }))
  sleep_handler now c (negsuc n) = (minus_one, c)

  -- The holder that blocks the wanted thread runs in its place.
  pub yield_to_holder : Threads → (to_run : ℕ) → ℤ × Threads
  yield_to_holder c to_run =
      let (got, lists) = sched_runnable_to_running sched_ktcb tid c.lists (pos (tid to_run)) in
      if to_run == 0
      then (minus_one, c)
      else if got == 0
      then (minus_one, record c { lists = lists })
      else run_instead (record c { lists = lists }) to_run

  -- The wanted thread is not runnable.
  pub yield_to_blocked : (fuel : ℕ) → Threads → (t : ℤ) → Option (ℤ × Threads)
  yield_to_blocked fuel c t =
      let target = get_root_thr c (sched_find_pcb c t) in
      if not (sched_is_waiting sched_ktcb tid c.lists (to_word t) == 0)
      then some (minus_one, c)
      else if target == 0
      then some (minus_one, c)
      else if c.blocked_mutex target == 0
      then some (minus_one, c)
      else elim (find_holder fuel c (c.holder (c.blocked_mutex target))) [
        | none ↦ none
        | some to_run ↦ some (yield_to_holder c to_run)
      ]

  pub yield_handler : (fuel : ℕ) → Threads → (t : ℤ) → Option (ℤ × Threads)
  yield_handler fuel c t =
      let (to_run, lists) = sched_runnable_to_running sched_ktcb tid c.lists t in
      if to_run == 0
      then yield_to_blocked fuel (record c { lists = lists }) t
      else some (run_instead (record c { lists = lists }) to_run)
