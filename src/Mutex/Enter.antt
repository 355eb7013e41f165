-- ===== src/Mutex/Enter.antt =====
-- mutex_lock of mutex.c, up to its switch and behind it, in a system of threads.
use unix_kernel.Base.{
  ℕ, ◌≡◌, ◌≢◌, refl, sym, ap, subst, ◌∙◌, true, false, Bool-cases, inl, inr, ◌∷◌, arith, ◌==◌,
  eq_of_==, if◌then◌else◌,
}
use unix_kernel.Sched.{sched_next}
use unix_kernel.Sched.Places.{places, count, IsSched}
use unix_kernel.Mutex.Next.{sched_next-IsNext}
use unix_kernel.Mutex.{
  Kernel, Place, outside, locking, inside, set_at, lock_wait, mutex_lock, lock_resumed,
}
use unix_kernel.Mutex.Inv.{IsSystem, cs_switch-to}

module _ (sched_ktcb : ℕ) (tid : ℕ → ℕ) (sched_not_null : sched_ktcb ≢ 0) where
  -- The kernel once the running thread waits in the queue.
  abbrev waiting : ℕ → Kernel → Kernel
  waiting now k = record k {
    running = (sched_next sched_ktcb tid now k.lists).0;
    blocked = set_at k.blocked k.running true;
    mutex = record k.mutex { queue = k.running ∷ k.mutex.queue };
    lists = (sched_next sched_ktcb tid now k.lists).1;
  }

  wait_lem :
      (now : ℕ) (k : Kernel) (p : ℕ → Place)
      → IsSystem sched_ktcb tid (record { kernel = k; place = p })
      → p k.running ≡ outside
      → k.running ≢ sched_ktcb
      → k.mutex.available ≡ false
      → IsSystem sched_ktcb tid
          (record { kernel = waiting now k; place = set_at p k.running locking })
  unfolding set_at count
  wait_lem now k p s out ne_sched busy =
      let next = sched_next-IsNext sched_ktcb tid sched_not_null now k.lists s.valid in
      record {
        init = s.init;
        valid = next.valid;
        not_null = next.not_null;
        free = next.free;
        queued = λ t c. elim (Bool-cases (t == k.running)) [
          | inl e ↦
              let same = eq_of_== t k.running e in
              let (apart, nowhere) =
                next.apart t (λ q. ne_sched (sym same ∙ q))
                  (ap (places tid k.lists) same ∙ s.free) in
              rw e (
                refl,
                (λ z. s.not_null (sym same ∙ z)),
                (λ q. ne_sched (sym same ∙ q)),
                apart,
                nowhere,
              )
          | inr e ↦
              let (at, some_thread, other, _, nowhere) = s.queued t (ground arith) in
              let (apart, nowhere') = next.apart t other nowhere in
              rw e (at, some_thread, other, apart, nowhere')
        ];
        once = λ t. let old = s.once t in let in_queue = s.queued t in ground arith;
        handed = λ t at c. let old = s.handed t in ground arith;
        held = λ t at. let old = s.held t in ground arith;
      }

  lock_wait-waiting :
      (now : ℕ) (k : Kernel)
      → IsSched sched_ktcb tid k.lists
      → lock_wait sched_ktcb tid now k ≡ waiting now k
  unfolding lock_wait
  lock_wait-waiting now k v =
      cs_switch-to
        (record k {
          blocked = set_at k.blocked k.running true;
          mutex = record k.mutex { queue = k.running ∷ k.mutex.queue };
          lists = (sched_next sched_ktcb tid now k.lists).1;
        })
        (sched_next sched_ktcb tid now k.lists).0
        (sched_next-IsNext sched_ktcb tid sched_not_null now k.lists v).not_null

  pub enter_lem :
      (now : ℕ) (k : Kernel) (p : ℕ → Place)
      → IsSystem sched_ktcb tid (record { kernel = k; place = p })
      → p k.running ≡ outside
      → k.running ≢ sched_ktcb
      → IsSystem sched_ktcb tid (record {
        kernel = mutex_lock sched_ktcb tid now k;
        place = set_at p k.running (if k.mutex.available then inside else locking);
      })
  unfolding mutex_lock
  enter_lem now k p s out ne_sched = elim (Bool-cases k.mutex.available) [
    | inl e ↦
        simp (s.init, e)
          (record {
            init = refl;
            valid = s.valid;
            not_null = s.not_null;
            free = s.free;
            queued = λ t c. let old = s.queued t c in unfold set_at in ground arith;
            once = s.once;
            handed = λ t at c. let old = s.handed t in unfold set_at in ground arith;
            held = λ t at. let old = s.held t in unfold set_at in ground arith;
          })
    | inr e ↦
        simp (s.init, e)
          (subst
            (λ x.
              IsSystem sched_ktcb tid (record { kernel = x; place = set_at p k.running locking }))
            (sym (lock_wait-waiting now k s.valid)) (wait_lem now k p s out ne_sched e))
  ]

  pub resume_lem :
      (k : Kernel) (p : ℕ → Place)
      → IsSystem sched_ktcb tid (record { kernel = k; place = p })
      → p k.running ≡ locking
      → IsSystem sched_ktcb tid
          (record { kernel = lock_resumed sched_ktcb tid k; place = set_at p k.running inside })
  unfolding lock_resumed set_at
  resume_lem k p s at_lock =
      let mine = s.handed k.running at_lock (let q = s.queued k.running in ground arith) in
      record {
        init = s.init;
        valid = s.valid;
        not_null = s.not_null;
        free = s.free;
        queued = λ t c. let old = s.queued t c in ground arith;
        once = s.once;
        handed = λ t at c. let old = s.handed t in ground arith;
        held = λ t at. let old = s.held t in ground arith;
      }
