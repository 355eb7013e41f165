-- ===== src/Mutex/Leave.antt =====
-- mutex_unlock of mutex.c and the timer's switch in a system of threads.
use unix_kernel.Base.{
  ℕ, ◌+◌, ◌≡◌, ◌≢◌, refl, sym, ap, ◌∙◌, true, false, Bool-cases, Option-cases, inl, inr, none, some,
  List, [], ◌∷◌, ◌++◌, arith, pos, ◌==◌, ne_of_==, ==_of_ne,
}
use unix_kernel.Sched.{Sched, take_last, sched_next, sched_running_to_runnable}
use unix_kernel.Sched.Places.{places, count, count-take_last, take_last-none, one_if, IsSched}
use unix_kernel.Sched.Puts.{running_to_lem}
use unix_kernel.Sched.Turns.{take_last-append}
use unix_kernel.Mutex.Next.{IsNext, sched_next-IsNext}
use unix_kernel.Mutex.{
  Kernel, Place, outside, locking, inside, set_at, hand_over, unlock_to, mutex_unlock, preempt,
  mutex_cond_unlock,
}
use unix_kernel.Mutex.Inv.{IsSystem, cs_switch-to}

module _ (sched_ktcb : ℕ) (tid : ℕ → ℕ) (sched_not_null : sched_ktcb ≢ 0) where
  -- Nobody waits: the mutex is free again.
  leave_free :
      (k : Kernel) (p : ℕ → Place)
      → IsSystem sched_ktcb tid (record { kernel = k; place = p })
      → p k.running ≡ inside
      → k.mutex.queue ≡ []
      → IsSystem sched_ktcb tid (record {
        kernel = record k { mutex = record k.mutex { available = true; holder = 0 } };
        place = set_at p k.running outside;
      })
  unfolding set_at count
  leave_free k p s at_inside empty =
      let mine = s.held k.running at_inside in
      record {
        init = s.init;
        valid = s.valid;
        not_null = s.not_null;
        free = s.free;
        queued = λ t c. let none_there = ap (count t) empty in ground arith;
        once = s.once;
        handed = λ t at c. let old = s.handed t in ground arith;
        held = λ t at. let old = s.held t in ground arith;
      }

  -- The mutex is handed over, and `lists` holds what it did, and maybe the thread that leaves.
  leave_to :
      (k : Kernel) (p : ℕ → Place) (n : ℕ) (left : List ℕ) (lists : Sched)
      → IsSystem sched_ktcb tid (record { kernel = k; place = p })
      → p k.running ≡ inside
      → ((t : ℕ) → count t k.mutex.queue ≡ count t left + one_if (t == n))
      → IsSched sched_ktcb tid lists
      → ((t : ℕ) → t ≢ k.running → places tid k.lists t ≡ 0 → places tid lists t ≡ 0)
      → IsSystem sched_ktcb tid (record {
        kernel = record k {
          running = n;
          lists = lists;
          blocked = set_at k.blocked n false;
          mutex = record k.mutex { queue = left; holder = n };
        };
        place = set_at p k.running outside;
      })
  unfolding set_at
  leave_to k p n left lists s at_inside taken valid others =
      let mine = s.held k.running at_inside in
      let was = s.queued n (let c = taken n in ground arith) in
      record {
        init = s.init;
        valid = valid;
        not_null = was.1;
        free = others n was.3 was.4;
        queued = λ t c.
            let sum = taken t in
            let only = s.once t in
            let old = s.queued t (omega arith) in
            let nowhere = others t old.3 old.4 in ground arith;
        once = λ t. let sum = taken t in let only = s.once t in omega arith;
        handed = λ t at c. let sum = taken t in let old = s.handed t in ground arith;
        held = λ t at. let old = s.held t in ground arith;
      }

  unlock-nobody :
      (k : Kernel)
      → k.mutex.init ≡ true
      → take_last k.mutex.queue ≡ none
      → mutex_unlock sched_ktcb tid k
        ≡ record k { mutex = record k.mutex { available = true; holder = 0 } }
  unfolding mutex_unlock
  unlock-nobody k init e = simp (init, e) refl

  pub unlock-somebody :
      (k : Kernel) (n : ℕ) (left : List ℕ)
      → k.mutex.init ≡ true
      → take_last k.mutex.queue ≡ some (n, left)
      → mutex_unlock sched_ktcb tid k
        ≡ unlock_to sched_ktcb tid (record k { mutex = record k.mutex { queue = left } }) n
  unfolding mutex_unlock
  unlock-somebody k n left init e = simp (init, e) refl

  abbrev pub handed_over : Kernel → ℕ → Sched → Kernel
  handed_over k n lists = record k {
    running = n;
    lists = lists;
    blocked = set_at k.blocked n false;
    mutex = record k.mutex { holder = n };
  }

  unlock_to-sched :
      (k : Kernel) (n : ℕ)
      → n ≢ 0
      → (k.running == sched_ktcb) ≡ true
      → unlock_to sched_ktcb tid k n ≡ handed_over k n k.lists
  unfolding unlock_to hand_over
  unlock_to-sched k n ne e = rw (unlock_to, e) (cs_switch-to _ n ne)

  pub unlock_to-other :
      (k : Kernel) (n : ℕ)
      → n ≢ 0
      → (k.running == sched_ktcb) ≡ false
      → (sched_running_to_runnable sched_ktcb tid k.lists k.running).0 ≡ pos 0
      → unlock_to sched_ktcb tid k n
        ≡ handed_over k n (sched_running_to_runnable sched_ktcb tid k.lists k.running).1
  unfolding unlock_to hand_over
  unlock_to-other k n ne e ok = rw (unlock_to, e, ok) (cs_switch-to _ n ne)

  pub leave_lem :
      (k : Kernel) (p : ℕ → Place)
      → IsSystem sched_ktcb tid (record { kernel = k; place = p })
      → p k.running ≡ inside
      → IsSystem sched_ktcb tid
          (record { kernel = mutex_unlock sched_ktcb tid k; place = set_at p k.running outside })
  leave_lem k p s at_inside = elim (Option-cases (take_last k.mutex.queue)) [
    | inl e ↦
        rw (unlock-nobody k s.init e) (leave_free k p s at_inside (take_last-none k.mutex.queue e))
    | inr ((n, left), e) ↦
        let taken : (t : ℕ) → count t k.mutex.queue ≡ count t left + one_if (t == n) =
          λ t. count-take_last t n k.mutex.queue left e in
        let was = s.queued n (let c = taken n in ground arith) in
        let k' = record k { mutex = record k.mutex { queue = left } } in
        elim (Bool-cases (k.running == sched_ktcb)) [
          | inl q ↦
              rw (unlock-somebody k n left s.init e, unlock_to-sched k' n was.1 q)
                (leave_to k p n left k.lists s at_inside taken s.valid (λ t ne z. z))
          | inr q ↦
              let put =
                running_to_lem sched_ktcb tid k.lists k.running 0 s.valid s.free s.not_null
                  (ne_of_== k.running sched_ktcb q) in
              rw (unlock-somebody k n left s.init e, unlock_to-other k' n was.1 q put.0)
                (leave_to k p n left _ s at_inside taken put.1.valid
                  (λ t ne z. put.1.adds t ∙ (let no = ==_of_ne t k.running ne in ground arith)))
        ]
  ]

  -- The switch of the timer, where the running thread is not inside mutex_lock.
  switched_lem :
      (k : Kernel) (p : ℕ → Place) (n : ℕ) (lists lists' : Sched)
      → IsSystem sched_ktcb tid (record { kernel = k; place = p })
      → p k.running ≢ locking
      → ((t : ℕ) → t ≢ k.running → places tid k.lists t ≡ 0 → places tid lists t ≡ 0)
      → IsNext sched_ktcb tid lists n lists'
      → IsSystem sched_ktcb tid
          (record { kernel = record k { running = n; lists = lists' }; place = p })
  switched_lem k p n lists lists' s out others next = record {
    init = s.init;
    valid = next.valid;
    not_null = next.not_null;
    free = next.free;
    queued = λ t c.
        let old = s.queued t c in
        let apart = next.apart t old.2 (others t old.3 old.4) in
        (old.0, old.1, old.2, apart.0, apart.1);
    once = s.once;
    handed = λ t at c. absurd (out (ap p (sym (s.handed t at c).0) ∙ at));
    held = s.held;
  }

  pub timer_lem :
      (now : ℕ) (k : Kernel) (p : ℕ → Place)
      → IsSystem sched_ktcb tid (record { kernel = k; place = p })
      → p k.running ≢ locking
      → IsSystem sched_ktcb tid (record { kernel = preempt sched_ktcb tid now k; place = p })
  unfolding preempt
  timer_lem now k p s out = elim (Bool-cases (k.running == sched_ktcb)) [
    | inl q ↦ rw (preempt, q) s
    | inr q ↦
        let put =
          running_to_lem sched_ktcb tid k.lists k.running 0 s.valid s.free s.not_null
            (ne_of_== k.running sched_ktcb q) in
        let next = sched_next-IsNext sched_ktcb tid sched_not_null now _ put.1.valid in
        rw
          (
            preempt,
            q,
            cs_switch-to
                (record k {
                  lists =
                      (sched_next sched_ktcb tid now
                        (sched_running_to_runnable sched_ktcb tid k.lists k.running).1).1;
                })
                _ next.not_null,
          )
          (switched_lem k p _ _ _ s out
            (λ t ne z. put.1.adds t ∙ (let no = ==_of_ne t k.running ne in ground arith)) next)
  ]

module _ (sched_ktcb : ℕ) (tid : ℕ → ℕ) where
  -- mutex_cond_unlock where threads wait for the mutex, and where none does.
  pub cond_unlock-somebody :
      (now : ℕ) (k : Kernel) (ls : List ℕ) (l : ℕ)
      → k.mutex.init ≡ true
      → l ≢ 0
      → k.mutex.queue ≡ ls ++ l ∷ []
      → mutex_cond_unlock sched_ktcb tid now k ≡ record k {
        running = l;
        blocked = set_at k.blocked l false;
        mutex = record k.mutex { queue = ls; holder = l };
      }
  unfolding mutex_cond_unlock hand_over
  cond_unlock-somebody now k ls l init ne e =
      let last : take_last k.mutex.queue ≡ some (l, ls) = ap take_last e ∙ take_last-append ls l in
      simp (init, last) (cs_switch-to _ l ne)

  pub cond_unlock-nobody :
      (now : ℕ) (k : Kernel) (n : ℕ) (left : Sched)
      → k.mutex.init ≡ true
      → n ≢ 0
      → k.mutex.queue ≡ []
      → sched_next sched_ktcb tid now k.lists ≡ (n, left)
      → mutex_cond_unlock sched_ktcb tid now k ≡ record k {
        running = n;
        lists = left;
        mutex = record k.mutex { available = true; holder = 0 };
      }
  unfolding mutex_cond_unlock
  cond_unlock-nobody now k n left init ne e next =
      let last : take_last k.mutex.queue ≡ none = ap take_last e ∙ unfold take_last in refl in
      simp (init, last, next) (cs_switch-to _ n ne)
