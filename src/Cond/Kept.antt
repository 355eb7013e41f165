-- ===== src/Cond/Kept.antt =====
-- The waits and the signals of cond.c lose no thread.
use unix_kernel.Base.{
  ℕ, ◌+◌, ◌≤◌, ◌≡◌, ◌≢◌, refl, ap, subst, ◌∙◌, true, inl, inr, none, List, [], ◌∷◌, ◌++◌, arith,
  ◌==◌, ==_of_ne, ==_of_eq, last-cases, Bool-cases, ℤ,
}
use unix_kernel.Sched.Places.{one_if, count, count-take_last, places}
use unix_kernel.Sched.Puts.{IsPut, running_to_lem, runnable_put-head}
use unix_kernel.Sched.Turns.{take_last-append, sched_next-IsTaken}
use unix_kernel.Sched.Kept.{IsRunning, taken-IsRunning}
use unix_kernel.Sched.{Sched, take_last, sched_next}
use unix_kernel.Cond.{Conds, set_cond, set_queue, cond_wait, cond_signal}
use unix_kernel.Cond.Woken.{cond_wait_lem, cond_signal_lem}

-- How often a thread runs, stands in a list of the scheduler, or waits for the mutex or in the
-- condition variable.
abbrev pub found : (ℕ → ℕ) → (cv : ℕ) → Conds → ℕ → ℕ
found tid cv s j =
    places tid s.kernel.lists j
    + one_if (j == s.kernel.running)
    + count j s.kernel.mutex.queue
    + count j (s.cond cv).wait_ktcbs

-- No thread is in two of these places, and the scheduler's own thread and NULL wait in neither queue.
pub record IsConds (sched_ktcb : ℕ) (tid : ℕ → ℕ) (cv : ℕ) (s : Conds) : Type 0 where
  pub runs : IsRunning sched_ktcb tid s.kernel.lists s.kernel.running
  pub once : (j : ℕ) → j ≢ sched_ktcb → found tid cv s j ≤ 1
  pub no_sched : count sched_ktcb s.kernel.mutex.queue + count sched_ktcb (s.cond cv).wait_ktcbs ≡ 0
  pub no_null : count 0 s.kernel.mutex.queue + count 0 (s.cond cv).wait_ktcbs ≡ 0

-- All of this still holds, and each thread but the scheduler's own is somewhere as often as before.
pub record IsKept (sched_ktcb : ℕ) (tid : ℕ → ℕ) (cv : ℕ) (s s' : Conds) : Type 0 where
  pub conds : IsConds sched_ktcb tid cv s'
  pub same : (j : ℕ) → j ≢ sched_ktcb → found tid cv s' j ≡ found tid cv s j

set_queue-here : (s : Conds) (cv : ℕ) (q : List ℕ) → ((set_queue s cv q).cond cv).wait_ktcbs ≡ q
unfolding set_queue set_cond
set_queue-here s cv q = rw (==_of_eq cv cv refl) refl

module _ (sched_ktcb : ℕ) (tid : ℕ → ℕ) (sched_not_null : sched_ktcb ≢ 0) where
  -- From the numbers of a state with the same places in all to its invariant.
  kept :
      (cv : ℕ) (s s' : Conds)
      → IsConds sched_ktcb tid cv s
      → IsRunning sched_ktcb tid s'.kernel.lists s'.kernel.running
      → ((j : ℕ) → j ≢ sched_ktcb → found tid cv s' j ≡ found tid cv s j)
      → count sched_ktcb s'.kernel.mutex.queue + count sched_ktcb (s'.cond cv).wait_ktcbs ≡ 0
      → count 0 s'.kernel.mutex.queue + count 0 (s'.cond cv).wait_ktcbs ≡ 0
      → IsKept sched_ktcb tid cv s s'
  kept cv s s' v runs same no_sched no_null = record {
    conds = record {
      runs = runs;
      once = λ j ne. let a = same j ne in let b = v.once j ne in omega arith;
      no_sched = no_sched;
      no_null = no_null;
    };
    same = same;
  }

  cond_signal-nobody :
      (wait_cond : ℕ) (s : Conds) (cv : ℕ)
      → (s.cond cv).wait_ktcbs ≡ []
      → cond_signal sched_ktcb tid wait_cond s cv ≡ s
  unfolding cond_signal
  cond_signal-nobody wait_cond s cv e =
      let nobody : take_last (s.cond cv).wait_ktcbs ≡ none =
        ap take_last e ∙ unfold take_last in refl in
      elim (Bool-cases (cv == 0)) [
        | inl z ↦ rw (cond_signal, z) refl
        | inr z ↦ rw (cond_signal, z, nobody) refl
      ]

  cond_wait-IsKept :
      (now : ℕ) (s : Conds) (cv : ℕ)
      → cv ≢ 0
      → s.kernel.mutex.init ≡ true
      → s.kernel.running ≢ sched_ktcb
      → IsConds sched_ktcb tid cv s
      → IsKept sched_ktcb tid cv s (cond_wait sched_ktcb tid now s cv)
        × ((cond_wait sched_ktcb tid now s cv).cond cv).wait_ktcbs
          ≡ s.kernel.running ∷ (s.cond cv).wait_ktcbs
  unfolding count
  cond_wait-IsKept now s cv ne init other v =
      let runs = v.runs in
      let q = (s.cond cv).wait_ktcbs in
      let here = set_queue-here s cv (s.kernel.running ∷ q) in
      let no_sched = v.no_sched in
      let no_null = v.no_null in
      let running = runs.not_null in
      elim (last-cases s.kernel.mutex.queue) [
        | inr (ls, l, e, _) ↦
            let split = λ (j : ℕ).
              count-take_last j l s.kernel.mutex.queue ls
                (ap take_last e ∙ take_last-append ls l) in
            let l_ne : l ≢ 0 = λ z. ground (arith, split 0) in
            let l_other : l ≢ sched_ktcb = λ z. ground (arith, split sched_ktcb) in
            let nowhere : places tid s.kernel.lists l ≡ 0 =
              ground (arith, split l, v.once l l_other) in
            rw ((cond_wait_lem sched_ktcb tid now s cv ne init other).0 ls l l_ne e) (
              kept cv s _ v (record { valid = runs.valid; not_null = l_ne; free = nowhere })
                  (λ j nj. rw here omega (arith, split j))
                  (rw here ground (arith, split sched_ktcb)) (rw here ground (arith, split 0)),
              here,
            )
        | inl e ↦
            let empty = λ (j : ℕ). ap (count j) e in
            let waits = (cond_wait_lem sched_ktcb tid now s cv ne init other).1 in
            elim (sched_next-IsTaken sched_ktcb tid now s.kernel.lists runs.valid) [
              | inl f ↦
                  let no_list = (runs.valid).no_sched in
                  rw (waits sched_ktcb s.kernel.lists sched_not_null e f) (
                    kept cv s _ v
                        (record { valid = runs.valid; not_null = sched_not_null; free = no_list })
                        (λ j nj. rw (here, ==_of_ne j sched_ktcb nj) omega (arith, empty j))
                        (rw here ground (arith, empty sched_ktcb))
                        (rw here ground (arith, empty 0)),
                    here,
                  )
              | inr t ↦
                  let n = (sched_next sched_ktcb tid now s.kernel.lists).0 in
                  rw (waits n _ t.not_null e refl) (
                    kept cv s _ v (taken-IsRunning sched_ktcb tid n runs.valid t)
                        (λ j nj. rw here (let r = t.removes j in omega (arith, empty j)))
                        (rw here ground (arith, empty sched_ktcb))
                        (rw here ground (arith, empty 0)),
                    here,
                  )
            ]
      ]

  cond_signal-IsKept :
      (wait_cond : ℕ) (s : Conds) (cv : ℕ) (ws : List ℕ) (w : ℕ)
      → cv ≢ 0
      → s.kernel.running ≢ sched_ktcb
      → IsConds sched_ktcb tid cv s
      → (s.cond cv).wait_ktcbs ≡ ws ++ w ∷ []
      → IsKept sched_ktcb tid cv s (cond_signal sched_ktcb tid wait_cond s cv)
        × ((cond_signal sched_ktcb tid wait_cond s cv).kernel.running ≡ w)
  unfolding count places
  cond_signal-IsKept wait_cond s cv ws w ne other v e =
      let runs = v.runs in
      let here = set_queue-here s cv ws in
      let no_sched = v.no_sched in
      let no_null = v.no_null in
      let lists = s.kernel.lists in
      let split = λ (j : ℕ).
        count-take_last j w (s.cond cv).wait_ktcbs ws (ap take_last e ∙ take_last-append ws w) in
      let w_ne : w ≢ 0 = λ z. ground (arith, split 0) in
      let w_other : w ≢ sched_ktcb = λ z. ground (arith, split sched_ktcb) in
      let put =
        running_to_lem sched_ktcb tid lists s.kernel.running 0 runs.valid runs.free runs.not_null
          other in
      let p =
        subst (λ (r : ℤ × Sched). IsPut sched_ktcb tid s.kernel.running lists r.1)
          (runnable_put-head sched_ktcb tid lists s.kernel.running runs.free other) put.1 in
      let nowhere : places tid (record lists { runnable = s.kernel.running ∷ lists.runnable }) w
          ≡ 0 =
        let a = p.adds w in ground (arith, split w, v.once w w_other) in
      rw (cond_signal_lem sched_ktcb tid wait_cond s cv ws w ne w_ne other runs.free e) (
        kept cv s _ v (record { valid = p.valid; not_null = w_ne; free = nowhere })
            (λ j nj. rw here omega (arith, split j, p.adds j))
            (rw here ground (arith, split sched_ktcb)) (rw here ground (arith, split 0)),
        refl,
      )

  -- Where an initialised mutex and a condition variable wait for which no thread is in two places
  -- and a thread other than the scheduler's own runs: after cond_wait, at any tick, all of this holds
  -- but that the scheduler's own thread may run, each thread but that one runs or waits as often as
  -- before, and the caller is at the head of the condition's queue. The same holds after cond_signal,
  -- and the thread that has waited longest runs then.
  pub no_waiter_lost :
      (now wait_cond : ℕ) (s : Conds) (cv : ℕ)
      → cv ≢ 0
      → s.kernel.mutex.init ≡ true
      → s.kernel.running ≢ sched_ktcb
      → IsConds sched_ktcb tid cv s
      → (IsKept sched_ktcb tid cv s (cond_wait sched_ktcb tid now s cv)
          × (((cond_wait sched_ktcb tid now s cv).cond cv).wait_ktcbs
              ≡ s.kernel.running ∷ (s.cond cv).wait_ktcbs))
        × ((ws : List ℕ) (w : ℕ)
            → (s.cond cv).wait_ktcbs ≡ ws ++ w ∷ []
            → IsKept sched_ktcb tid cv s (cond_signal sched_ktcb tid wait_cond s cv)
              × ((cond_signal sched_ktcb tid wait_cond s cv).kernel.running ≡ w))
        × ((s.cond cv).wait_ktcbs ≡ [] → cond_signal sched_ktcb tid wait_cond s cv ≡ s)
  no_waiter_lost now wait_cond s cv ne init other v = (
    cond_wait-IsKept now s cv ne init other v,
    λ ws w e. cond_signal-IsKept wait_cond s cv ws w ne other v e,
    cond_signal-nobody wait_cond s cv,
  )
