-- ===== src/SchedCalls/Kept.antt =====
-- The scheduling system calls lose no thread: deschedule, make_runnable, sleep.
use unix_kernel.Base.{
  ℕ, zero, suc, ◌+◌, ◌%◌, ◌^◌, ◌≡◌, ◌≢◌, refl, not, Bool-cases, Option-cases, inl, inr, arith, ℤ,
  pos, negsuc, ==_of_ne, to_word, eq_int, lt_int,
}
use unix_kernel.StHash.Laws.{held}
use unix_kernel.Sched.Puts.{IsPut, running_to_lem}
use unix_kernel.Sched.Takes.{IsTaken, to_running_lem}
use unix_kernel.Sched.Turns.{sched_next-IsTaken}
use unix_kernel.Sched.Kept.{IsRunning, IsKept, put_take-IsKept, taken-apart, take_put-IsKept}
use unix_kernel.Sched.{Sched, sched_next}
use unix_kernel.Pgtable.{Vm}
use unix_kernel.VirtualMem.{Regions, vm_mem_region_check}
use unix_kernel.SchedCalls.{
  Threads, cs_switch, switch_to_next, deschedule_handler, run_instead, make_runnable_handler,
  sleep_handler,
}

-- One call's change to the threads.
abbrev pub Keeps : ℕ → (ℕ → ℕ) → Threads → Threads → Type 0
Keeps sched_ktcb tid c c' = IsKept sched_ktcb tid c.lists c.running c'.lists c'.running

pub cs_switch-to : (c : Threads) (n : ℕ) → n ≢ 0 → cs_switch c n ≡ record c { running = n }
unfolding cs_switch
cs_switch-to c n ne = rw (==_of_ne n 0 ne) refl

module _ (sched_ktcb : ℕ) (tid : ℕ → ℕ) (sched_not_null : sched_ktcb ≢ 0) where
  pub nothing-Keeps :
      (c : Threads) → IsRunning sched_ktcb tid c.lists c.running → Keeps sched_ktcb tid c c
  nothing-Keeps c v = record { runs = v; same = λ j ne. refl }

  -- The running thread has been put into a list, and the next one runs.
  next-Keeps :
      (now : ℕ) (c : Threads) (lists : Sched)
      → IsPut sched_ktcb tid c.running c.lists lists
      → Keeps sched_ktcb tid c (switch_to_next sched_ktcb tid now (record c { lists = lists }))
  unfolding switch_to_next
  next-Keeps now c lists p = elim (sched_next-IsTaken sched_ktcb tid now lists p.valid) [
    | inl e ↦
        rw (e, cs_switch-to (record c { lists = lists }) sched_ktcb sched_not_null)
          (record {
            runs = record {
              valid = p.valid;
              not_null = sched_not_null;
              free = let v = p.valid in v.no_sched;
            };
            same = λ j ne. let a = p.adds j in ground (arith, ==_of_ne j sched_ktcb ne);
          })
    | inr t ↦
        rw
          (cs_switch-to (record c { lists = (sched_next sched_ktcb tid now lists).1 }) _ t.not_null)
          (put_take-IsKept sched_ktcb tid c.running _ p t)
  ]

  -- A thread has been taken out of a list, and runs instead of the running one.
  pub run_instead-Keeps :
      (c : Threads) (lists : Sched) (n : ℕ)
      → IsRunning sched_ktcb tid c.lists c.running
      → c.running ≢ sched_ktcb
      → IsTaken sched_ktcb tid n c.lists lists
      → ((run_instead sched_ktcb tid (record c { lists = lists }) n).0 ≡ pos 0)
        × ((run_instead sched_ktcb tid (record c { lists = lists }) n).1.running ≡ n)
        × Keeps sched_ktcb tid c (run_instead sched_ktcb tid (record c { lists = lists }) n).1
  unfolding run_instead
  run_instead-Keeps c lists n v other t =
      let apart = taken-apart sched_ktcb tid c.running n v t in
      let put = running_to_lem sched_ktcb tid lists c.running 0 t.valid apart.0 v.not_null other in
      rw (put.0, cs_switch-to _ n t.not_null)
        (refl, refl, take_put-IsKept sched_ktcb tid c.running n v t put.1)

  deschedule-Keeps :
      (pcb : Regions) (vm : Vm) (pgd : ℕ) (read_int : ℕ → ℤ) (now : ℕ) (c : Threads) (reject : ℕ)
      → IsRunning sched_ktcb tid c.lists c.running
      → c.running ≢ sched_ktcb
      → Keeps sched_ktcb tid c
          (deschedule_handler sched_ktcb tid pcb vm pgd read_int now c reject).1
  unfolding deschedule_handler
  deschedule-Keeps pcb vm pgd read_int now c reject v other =
      elim (Bool-cases (lt_int (vm_mem_region_check pcb vm pgd reject 4) (pos 0))) [
        | inl e ↦ rw e (nothing-Keeps c v)
        | inr e ↦ elim (Bool-cases (not (eq_int (read_int reject) (pos 0)))) [
          | inl f ↦ rw (e, f) (nothing-Keeps c v)
          | inr f ↦ elim (Option-cases (held c.lists.waiting (tid c.running))) [
            | inl g ↦
                let put =
                  (running_to_lem sched_ktcb tid c.lists c.running 0 v.valid v.free v.not_null
                      other).4
                    g in
                rw (e, f, put.0) (next-Keeps now c _ put.1)
            | inr (old, g) ↦
                let there =
                  (running_to_lem sched_ktcb tid c.lists c.running 0 v.valid v.free v.not_null
                      other).5
                    old g in
                rw (e, f, there) (nothing-Keeps c v)
          ]
        ]
      ]

  sleep-Keeps :
      (now : ℕ) (c : Threads) (ticks : ℤ)
      → IsRunning sched_ktcb tid c.lists c.running
      → c.running ≢ sched_ktcb
      → Keeps sched_ktcb tid c (sleep_handler sched_ktcb tid now c ticks).1
  unfolding sleep_handler
  sleep-Keeps now c (pos zero) v other = nothing-Keeps c v
  sleep-Keeps now c (pos (suc n)) v other =
      next-Keeps now c _
        (running_to_lem sched_ktcb tid c.lists c.running ((suc n + now) % 2 ^ 32) v.valid v.free
          v.not_null other).3
  sleep-Keeps now c (negsuc n) v other = nothing-Keeps c v

  make_runnable-Keeps :
      (c : Threads) (t : ℤ)
      → IsRunning sched_ktcb tid c.lists c.running
      → c.running ≢ sched_ktcb
      → Keeps sched_ktcb tid c (make_runnable_handler sched_ktcb tid c t).1
  unfolding make_runnable_handler
  make_runnable-Keeps c t v other =
      elim ((to_running_lem sched_ktcb tid c.lists v.valid).1 (to_word t)) [
        | inl e ↦ rw e (nothing-Keeps c v)
        | inr taken ↦ rw (==_of_ne _ 0 taken.not_null) (run_instead-Keeps c _ _ v other taken).2
      ]

  -- Where the lists are well formed and a thread other than the scheduler's own runs, which stands
  -- in none of them: after deschedule, for any answer of its checks, after sleep with any number of
  -- ticks and after make_runnable with any id, the lists are well formed, a thread that is not NULL
  -- and stands in none of them runs, and each thread but the scheduler's own runs or stands in a
  -- list as often as before.
  pub no_thread_lost :
      (pcb : Regions) (vm : Vm) (pgd : ℕ) (read_int : ℕ → ℤ) (now : ℕ) (c : Threads)
      → IsRunning sched_ktcb tid c.lists c.running
      → c.running ≢ sched_ktcb
      → ((reject : ℕ)
          → Keeps sched_ktcb tid c
              (deschedule_handler sched_ktcb tid pcb vm pgd read_int now c reject).1)
        × ((ticks : ℤ) → Keeps sched_ktcb tid c (sleep_handler sched_ktcb tid now c ticks).1)
        × ((t : ℤ) → Keeps sched_ktcb tid c (make_runnable_handler sched_ktcb tid c t).1)
  no_thread_lost pcb vm pgd read_int now c v other = (
    λ reject. deschedule-Keeps pcb vm pgd read_int now c reject v other,
    λ ticks. sleep-Keeps now c ticks v other,
    λ t. make_runnable-Keeps c t v other,
  )
