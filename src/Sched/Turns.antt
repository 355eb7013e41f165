-- ===== src/Sched/Turns.antt =====
-- Which thread sched_next of sched.c picks.
use unix_kernel.Base.{
  ◌⊎◌, inl, inr, ℕ, ◌+◌, ◌≡◌, ◌≢◌, refl, ap, ◌∙◌, some, List, [], ◌∷◌, ◌++◌, arith, minus_one, ◌==◌,
  ==_of_ne,
}
use unix_kernel.TimedQueue.{TimedNode, TimedQueue, tq_get}
use unix_kernel.TimedQueue.Wakeup.{due, tq_get_lem}
use unix_kernel.Sched.Places.{one_if, count_sleeping, places, IsSched, count-take_last}
use unix_kernel.Sched.Takes.{IsTaken, not_sched-other, without_runnable, runnable_take, sleep_take}
use unix_kernel.Sched.{
  Sched, take_last, taken_runnable, sched_runnable_to_running, sched_sleep_to_running, sched_next,
}

pub take_last-append : (xs : List ℕ) (y : ℕ) → take_last (xs ++ y ∷ []) ≡ some (y, xs)
unfolding take_last
take_last-append [] y = refl
take_last-append (x ∷ xs) y = rw (take_last-append xs y) refl

module _ (sched_ktcb : ℕ) (tid : ℕ → ℕ) where
  oldest_run :
      (s : Sched) (xs : List ℕ) (y : ℕ)
      → IsSched sched_ktcb tid s
      → s.runnable ≡ xs ++ y ∷ []
      → (sched_runnable_to_running sched_ktcb tid s minus_one ≡ (y, record s { runnable = xs }))
        × IsTaken sched_ktcb tid y s (record s { runnable = xs })
  unfolding sched_runnable_to_running taken_runnable
  oldest_run s xs y v e =
      let last : take_last s.runnable ≡ some (y, xs) = ap take_last e ∙ take_last-append xs y in
      let t =
        without_runnable sched_ktcb tid s y xs v (λ k. count-take_last k y s.runnable xs last) in
      (
        rw last
            (ap (λ x. (x, record s { runnable = xs })) (not_sched-other sched_ktcb tid y t.other)),
        t,
      )

  nobody_run :
      (s : Sched) → s.runnable ≡ [] → sched_runnable_to_running sched_ktcb tid s minus_one ≡ (0, s)
  unfolding sched_runnable_to_running taken_runnable take_last
  nobody_run s e = rw (ap take_last e) refl

  -- Where no tick has passed: the oldest runnable thread, or the scheduler's own.
  awake_next :
      (now : ℕ) (s : Sched)
      → tq_get now s.sleeping ≡ (0, s.sleeping)
      → ((xs : List ℕ) (y : ℕ)
          → IsSched sched_ktcb tid s
          → s.runnable ≡ xs ++ y ∷ []
          → sched_next sched_ktcb tid now s ≡ (y, record s { runnable = xs }))
        × (s.runnable ≡ [] → sched_next sched_ktcb tid now s ≡ (sched_ktcb, s))
  unfolding sched_next sched_sleep_to_running
  awake_next now s none_due = (
    λ xs y v e.
        let (run, t) = oldest_run s xs y v e in rw (none_due, run, ==_of_ne y 0 t.not_null) refl,
    λ e. rw (none_due, nobody_run s e) refl,
  )

  -- sched_next, on well-formed lists: when ticks of sleepers have passed, it takes the first of
  -- them; else it takes the runnable thread that has waited longest; and when there is none, it
  -- answers the scheduler's own thread and changes nothing.
  pub sched_next_lem :
      (now : ℕ) (s : Sched)
      → IsSched sched_ktcb tid s
      → ((n : TimedNode) (later : TimedQueue)
          → due now s.sleeping ≡ n ∷ later
          → (rest : TimedQueue) × (s.sleeping ≡ n ∷ rest)
            × (sched_next sched_ktcb tid now s ≡ (n.payload, record s { sleeping = rest })))
        × (due now s.sleeping ≡ []
            → (xs : List ℕ) (y : ℕ) → s.runnable ≡ xs ++ y ∷ []
            → sched_next sched_ktcb tid now s ≡ (y, record s { runnable = xs }))
        × (due now s.sleeping ≡ []
            → s.runnable ≡ []
            → sched_next sched_ktcb tid now s ≡ (sched_ktcb, s))
  unfolding sched_next sched_sleep_to_running
  sched_next_lem now s v =
      let (none_due, some_due) = tq_get_lem now s.sleeping v.sorted in
      (
        λ n later e.
            let (rest, front, got, _, _) = some_due n later e in
            let awake : n.payload ≢ 0 = λ z.
              let no_null = v.no_null in
              let here : count_sleeping 0 s.sleeping
                  ≡ one_if (0 == n.payload) + count_sleeping 0 rest =
                ap (count_sleeping 0) front ∙ unfold count_sleeping in refl in
              unfold places in ground arith in
            (rest, front, rw (got, ==_of_ne n.payload 0 awake) refl),
        λ e xs y. (awake_next now s (none_due e)).0 xs y v,
        λ e. (awake_next now s (none_due e)).1,
      )

  -- sched_next answers the scheduler's own thread and changes nothing, or takes a thread.
  pub sched_next-IsTaken :
      (now : ℕ) (s : Sched)
      → IsSched sched_ktcb tid s
      → (sched_next sched_ktcb tid now s ≡ (sched_ktcb, s))
        ⊎ IsTaken sched_ktcb tid
            (sched_next sched_ktcb tid now s).0
            s
            (sched_next sched_ktcb tid now s).1
  unfolding sched_next
  sched_next-IsTaken now s v = elim (sleep_take sched_ktcb tid now s v) [
    | inl e ↦ elim (runnable_take sched_ktcb tid s minus_one v) [
      | inl f ↦ rw (e, f) (inl refl)
      | inr t ↦ rw (e, ==_of_ne _ 0 t.not_null) (inr t)
    ]
    | inr t ↦ rw (==_of_ne _ 0 t.not_null) (inr t)
  ]
