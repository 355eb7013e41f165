-- ===== src/SchedCalls/Yield.antt =====
-- yield of kern/syscall/yield.c: it ends, loses no thread, and runs who it is asked for; and what
-- it does among threads that wait for each other.
use unix_kernel.Base.{
  ℕ, zero, suc, ◌≤◌, ◌<◌, ◌≡◌, ◌≢◌, refl, ap, subst, not, Bool-cases, inl, inr, none, some, arith,
  ℤ, pos, minus_one, ◌==◌, ==_of_ne, ne_of_==, to_word,
}
use unix_kernel.Sched.Takes.{IsTaken, to_running_lem}
use unix_kernel.Sched.Kept.{IsRunning, found-tid}
use unix_kernel.Sched.{Sched, sched_runnable_to_running, sched_is_waiting}
use unix_kernel.SchedCalls.{
  Threads, sched_find_pcb, get_root_thr, find_holder, run_instead, yield_to_holder,
  yield_to_blocked, yield_handler,
}
use unix_kernel.SchedCalls.Kept.{Keeps, nothing-Keeps, run_instead-Keeps}

-- The walk ends where no chain of holders is longer than `rank` says.
find_holder-ends :
    (fuel : ℕ) (c : Threads) (rank : ℕ → ℕ) (h : ℕ)
    → ((k : ℕ) → k ≢ 0 → c.blocked_mutex k ≢ 0 → rank (c.holder (c.blocked_mutex k)) < rank k)
    → rank h < fuel
    → (r : ℕ) × (find_holder fuel c h ≡ some r)
unfolding find_holder
find_holder-ends zero c rank h falls small = absurd (omega arith)
find_holder-ends (suc fuel) c rank h falls small = elim (Bool-cases (h == 0)) [
  | inl e ↦ (0, rw e refl)
  | inr e ↦ elim (Bool-cases (c.blocked_mutex h == 0)) [
    | inl f ↦ (h, rw (e, f) refl)
    | inr f ↦
        let less = falls h (ne_of_== _ _ e) (ne_of_== _ _ f) in
        rw (e, f) (find_holder-ends fuel c rank (c.holder (c.blocked_mutex h)) falls (omega arith))
  ]
]

-- Two threads that each wait for a mutex that the other holds.
pub record AreDeadlocked (c : Threads) (a b : ℕ) : Type 0 where
  pub a_not_null : a ≢ 0
  pub b_not_null : b ≢ 0
  pub a_blocked : c.blocked_mutex a ≢ 0
  pub b_blocked : c.blocked_mutex b ≢ 0
  pub a_waits : c.holder (c.blocked_mutex a) ≡ b
  pub b_waits : c.holder (c.blocked_mutex b) ≡ a

turned : {c : Threads} {a b : ℕ} → AreDeadlocked c a b → AreDeadlocked c b a
turned d = record {
  a_not_null = d.b_not_null;
  b_not_null = d.a_not_null;
  a_blocked = d.b_blocked;
  b_blocked = d.a_blocked;
  a_waits = d.b_waits;
  b_waits = d.a_waits;
}

find_holder-runs_on :
    (fuel : ℕ) (c : Threads) (a b : ℕ) → AreDeadlocked c a b → find_holder fuel c a ≡ none
unfolding find_holder
find_holder-runs_on zero c a b d = refl
find_holder-runs_on (suc fuel) c a b d =
    rw (==_of_ne a 0 d.a_not_null, ==_of_ne _ 0 d.a_blocked, d.a_waits)
      (find_holder-runs_on fuel c b a (turned d))

module _ (sched_ktcb : ℕ) (tid : ℕ → ℕ) (sched_not_null : sched_ktcb ≢ 0) where
  to_holder-Keeps :
      (c : Threads) (h : ℕ)
      → IsRunning sched_ktcb tid c.lists c.running
      → c.running ≢ sched_ktcb
      → ((j k : ℕ) → tid j ≡ tid k → j ≡ k)
      → Keeps sched_ktcb tid c (yield_to_holder sched_ktcb tid c h).1
  unfolding yield_to_holder
  to_holder-Keeps c h v other distinct = elim (Bool-cases (h == 0)) [
    | inl e ↦ rw e (nothing-Keeps sched_ktcb tid sched_not_null c v)
    | inr e ↦ elim ((to_running_lem sched_ktcb tid c.lists v.valid).0 (pos (tid h))) [
      | inl f ↦ rw (e, f) (nothing-Keeps sched_ktcb tid sched_not_null c v)
      | inr t ↦
          let is_h = distinct _ h (found-tid sched_ktcb tid c.lists (tid h) t.not_null) in
          rw (e, ==_of_ne _ 0 t.not_null)
            (run_instead-Keeps sched_ktcb tid sched_not_null c _ h v other (
              subst
                (λ n.
                  IsTaken sched_ktcb tid n c.lists
                    (sched_runnable_to_running sched_ktcb tid c.lists (pos (tid h))).1)
                is_h t)).2
    ]
  ]

  to_blocked-Keeps :
      (fuel : ℕ) (c : Threads) (t : ℤ) (rank : ℕ → ℕ)
      → IsRunning sched_ktcb tid c.lists c.running
      → c.running ≢ sched_ktcb
      → ((j k : ℕ) → tid j ≡ tid k → j ≡ k)
      → ((k : ℕ) → k ≢ 0 → c.blocked_mutex k ≢ 0 → rank (c.holder (c.blocked_mutex k)) < rank k)
      → ((k : ℕ) → rank k ≤ fuel)
      → (r : ℤ × Threads) × (yield_to_blocked sched_ktcb tid fuel c t ≡ some r)
        × Keeps sched_ktcb tid c r.1
  unfolding yield_to_blocked
  to_blocked-Keeps fuel c t rank v other distinct falls enough =
      let here = nothing-Keeps sched_ktcb tid sched_not_null c v in
      let target = get_root_thr c (sched_find_pcb c t) in
      elim (Bool-cases (not (sched_is_waiting sched_ktcb tid c.lists (to_word t) == 0))) [
        | inl e ↦ ((minus_one, c), rw e refl, here)
        | inr e ↦ elim (Bool-cases (target == 0)) [
          | inl f ↦ ((minus_one, c), rw (e, f) refl, here)
          | inr f ↦ elim (Bool-cases (c.blocked_mutex target == 0)) [
            | inl g ↦ ((minus_one, c), rw (e, f, g) refl, here)
            | inr g ↦
                let less = falls target (ne_of_== _ _ f) (ne_of_== _ _ g) in
                let most = enough target in
                let (h, found) =
                  find_holder-ends fuel c rank (c.holder (c.blocked_mutex target)) falls
                    (omega arith) in
                (
                  yield_to_holder sched_ktcb tid c h,
                  rw (e, f, g, found) refl,
                  to_holder-Keeps c h v other distinct,
                )
          ]
        ]
      ]

  -- Where the lists are well formed, a thread other than the scheduler's own runs and stands in none
  -- of them, no two threads have one id, and the chains from a blocked thread to the holder of the
  -- mutex that it waits for are no longer than the fuel: yield ends for any id, the lists are well
  -- formed after it, and each thread but the scheduler's own runs or stands in a list as often as
  -- before. When sched_runnable_to_running finds a thread for the id, yield answers 0 and runs it.
  pub yield_handler_lem :
      (fuel : ℕ) (c : Threads) (t : ℤ) (rank : ℕ → ℕ)
      → IsRunning sched_ktcb tid c.lists c.running
      → c.running ≢ sched_ktcb
      → ((j k : ℕ) → tid j ≡ tid k → j ≡ k)
      → ((k : ℕ) → k ≢ 0 → c.blocked_mutex k ≢ 0 → rank (c.holder (c.blocked_mutex k)) < rank k)
      → ((k : ℕ) → rank k ≤ fuel)
      → (r : ℤ × Threads) × (yield_handler sched_ktcb tid fuel c t ≡ some r)
        × Keeps sched_ktcb tid c r.1
        × ((sched_runnable_to_running sched_ktcb tid c.lists t).0 ≢ 0
            → (r.0 ≡ pos 0)
              × (r.1.running ≡ (sched_runnable_to_running sched_ktcb tid c.lists t).0))
  unfolding yield_handler
  yield_handler_lem fuel c t rank v other distinct falls enough =
      elim ((to_running_lem sched_ktcb tid c.lists v.valid).0 t) [
        | inl e ↦
            let (r, ends, keeps) = to_blocked-Keeps fuel c t rank v other distinct falls enough in
            (r, rw e ends, keeps, λ ne. absurd (ne (ap (λ (x : ℕ × Sched). x.0) e)))
        | inr taken ↦
            let (ok, runs, keeps) =
              run_instead-Keeps sched_ktcb tid sched_not_null c _ _ v other taken in
            (
              run_instead sched_ktcb tid
                  (record c { lists = (sched_runnable_to_running sched_ktcb tid c.lists t).1 })
                  (sched_runnable_to_running sched_ktcb tid c.lists t).0,
              rw (==_of_ne _ 0 taken.not_null) refl,
              keeps,
              λ ne. (ok, runs),
            )
      ]

  -- Whenever the wanted thread is neither runnable nor waiting, and it and another thread each wait
  -- for a mutex that the other holds, the loop of yield goes on for any number of rounds.
  pub yield_handler-deadlocked :
      (fuel : ℕ) (c : Threads) (t : ℤ) (b : ℕ)
      → sched_runnable_to_running sched_ktcb tid c.lists t ≡ (0, c.lists)
      → sched_is_waiting sched_ktcb tid c.lists (to_word t) ≡ 0
      → AreDeadlocked c (get_root_thr c (sched_find_pcb c t)) b
      → yield_handler sched_ktcb tid fuel c t ≡ none
  unfolding yield_handler yield_to_blocked
  yield_handler-deadlocked fuel c t b e f d =
      let a = get_root_thr c (sched_find_pcb c t) in
      rw
        (
          e,
          f,
          ==_of_ne a 0 d.a_not_null,
          ==_of_ne _ 0 d.a_blocked,
          d.a_waits,
          find_holder-runs_on fuel c b a (turned d),
        )
        refl
