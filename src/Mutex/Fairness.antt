-- ===== src/Mutex/Fairness.antt =====
-- The timer's switch is fair: a runnable thread comes to run.
use unix_kernel.Base.{
  ℕ, suc, ◌+◌, ◌<◌, ◌≡◌, ◌≢◌, refl, sym, ap, subst, ℤ, ◌∙◌, inl, inr, ◌⊎◌, List, [], ◌∷◌, ◌++◌,
  append_assoc, length, length-append, list-cases, last-cases, arith, ==_of_ne,
}
use unix_kernel.TimedQueue.{TimedQueue}
use unix_kernel.TimedQueue.Wakeup.{due}
use unix_kernel.Sched.Places.{IsSched}
use unix_kernel.Sched.Puts.{running_to_lem, runnable_put-head}
use unix_kernel.Sched.Takes.{IsTaken}
use unix_kernel.Sched.Turns.{sched_next_lem, sched_next-IsTaken}
use unix_kernel.Sched.Kept.{IsRunning, taken-IsRunning}
use unix_kernel.Sched.{Sched, sched_next}
use unix_kernel.Mutex.{Kernel, preempt}
use unix_kernel.Mutex.Inv.{cs_switch-to}

module _ (sched_ktcb : ℕ) (tid : ℕ → ℕ) where
  -- The timer's switches at the given ticks.
  abbrev pub preempts : List ℕ → Kernel → Kernel
  preempts [] k = k
  preempts (now ∷ later) k = preempts later (preempt sched_ktcb tid now k)

  -- Threads and sleepers that can come before a thread.
  abbrev size : Sched → ℕ
  size s = length s.runnable + length s.sleeping

  -- What comes next has been taken from the lists if they have become shorter.
  shorter-IsTaken :
      (now : ℕ) (s left : Sched) (n : ℕ)
      → IsSched sched_ktcb tid s
      → sched_next sched_ktcb tid now s ≡ (n, left)
      → size left < size s
      → IsTaken sched_ktcb tid n s left
  shorter-IsTaken now s left n v e less = elim (sched_next-IsTaken sched_ktcb tid now s v) [
    | inl f ↦
        let same : size left ≡ size s = ap (λ (x : ℕ × Sched). size x.1) (sym e ∙ f) in
        absurd (omega arith)
    | inr t ↦ subst (λ (x : ℕ × Sched). IsTaken sched_ktcb tid x.0 s x.1) e t
  ]

  moved-IsSched :
      (k : Kernel)
      → IsRunning sched_ktcb tid k.lists k.running
      → k.running ≢ sched_ktcb
      → IsSched sched_ktcb tid (record k.lists { runnable = k.running ∷ k.lists.runnable })
  moved-IsSched k v other =
      let put = running_to_lem sched_ktcb tid k.lists k.running 0 v.valid v.free v.not_null other in
      subst (λ (x : ℤ × Sched). IsSched sched_ktcb tid x.1)
        (runnable_put-head sched_ktcb tid k.lists k.running v.free other) (put.1).valid

  -- One switch to `n`, with the lists `left` behind it.
  preempt-to :
      (now : ℕ) (k : Kernel) (n : ℕ) (left : Sched)
      → IsRunning sched_ktcb tid k.lists k.running
      → k.running ≢ sched_ktcb
      → sched_next sched_ktcb tid now (record k.lists { runnable = k.running ∷ k.lists.runnable })
        ≡ (n, left)
      → size left < suc (size k.lists)
      → (preempt sched_ktcb tid now k ≡ record k { lists = left; running = n })
        × IsRunning sched_ktcb tid left n
        × (n ≢ sched_ktcb)
  unfolding preempt
  preempt-to now k n left v other e less =
      let head = runnable_put-head sched_ktcb tid k.lists k.running v.free other in
      let moved : Sched = record k.lists { runnable = k.running ∷ k.lists.runnable } in
      let well : IsSched sched_ktcb tid moved = moved-IsSched k v other in
      let t = shorter-IsTaken now moved left n well e (omega (arith, less)) in
      (
        rw (==_of_ne k.running sched_ktcb other, head, e)
            (cs_switch-to (record k { lists = left }) n t.not_null),
        taken-IsRunning sched_ktcb tid n well t,
        t.other,
      )

  -- `y` runs after the switch, or fewer threads and sleepers can come before it.
  Nearer : Kernel → (y : ℕ) → (ahead : ℕ) → Type 0
  Nearer k y ahead =
      (k.running ≡ y)
      ⊎ ((xs ys : List ℕ) × (k.lists.runnable ≡ xs ++ y ∷ ys)
          × (suc (length ys + length k.lists.sleeping) ≡ ahead))

  preempt-Nearer :
      (now : ℕ) (k : Kernel) (xs : List ℕ) (y : ℕ) (ys : List ℕ)
      → IsRunning sched_ktcb tid k.lists k.running
      → k.running ≢ sched_ktcb
      → k.lists.runnable ≡ xs ++ y ∷ ys
      → let k' = preempt sched_ktcb tid now k in
        IsRunning sched_ktcb tid k'.lists k'.running
        × (k'.running ≢ sched_ktcb)
        × Nearer k' y (length ys + length k.lists.sleeping)
  unfolding Nearer
  preempt-Nearer now k xs y ys v other at =
      let moved : Sched = record k.lists { runnable = k.running ∷ k.lists.runnable } in
      let well : IsSched sched_ktcb tid moved = moved-IsSched k v other in
      let (sleeper, oldest, _) = sched_next_lem sched_ktcb tid now moved well in
      elim (list-cases (due now k.lists.sleeping)) [
        | inr (n, later, e) ↦
            let (rest, front, next) = sleeper n later e in
            let shorter = ap (λ (x : TimedQueue). length x) front in
            let (to, runs, ne) =
              preempt-to now k n.payload (record moved { sleeping = rest }) v other next
                (omega arith) in
            rw to (
              runs,
              ne,
              inr (k.running ∷ xs, ys, ap (λ (r : List ℕ). k.running ∷ r) at, omega arith),
            )
        | inl e ↦ elim (last-cases ys) [
          | inl f ↦
              let here : k.running ∷ k.lists.runnable ≡ (k.running ∷ xs) ++ y ∷ [] =
                ap (λ (r : List ℕ). k.running ∷ r) (at ∙ ap (λ (r : List ℕ). xs ++ y ∷ r) f) in
              let sum = ap (λ (r : List ℕ). length r) here in
              let all = length-append (k.running ∷ xs) (y ∷ []) in
              let (to, runs, ne) =
                preempt-to now k y (record moved { runnable = k.running ∷ xs }) v other
                  (oldest e (k.running ∷ xs) y here) (omega arith) in
              rw to (runs, ne, inl refl)
          | inr (zs, z, f, n) ↦
              let here : k.running ∷ k.lists.runnable ≡ (k.running ∷ xs ++ y ∷ zs) ++ z ∷ [] =
                ap (λ (r : List ℕ). k.running ∷ r)
                  (at
                    ∙ ap (λ (r : List ℕ). xs ++ y ∷ r) f
                    ∙ sym (append_assoc xs (y ∷ zs) (z ∷ []))) in
              let sum = ap (λ (r : List ℕ). length r) here in
              let all = length-append (k.running ∷ xs ++ y ∷ zs) (z ∷ []) in
              let (to, runs, ne) =
                preempt-to now k z (record moved { runnable = k.running ∷ xs ++ y ∷ zs }) v other
                  (oldest e (k.running ∷ xs ++ y ∷ zs) z here) (omega arith) in
              rw to (runs, ne, inr (k.running ∷ xs, zs, refl, omega arith))
        ]
      ]

  -- Where the lists are well formed and a thread other than the scheduler's own runs, which stands
  -- in none of them: a runnable thread runs after some of the next timer switches, at any ticks, if
  -- these switches are more than the runnable threads that have waited longer and the sleepers
  -- together, and no other step comes between them.
  pub preempts-runs :
      (nows : List ℕ) (k : Kernel) (xs : List ℕ) (y : ℕ) (ys : List ℕ)
      → IsRunning sched_ktcb tid k.lists k.running
      → k.running ≢ sched_ktcb
      → k.lists.runnable ≡ xs ++ y ∷ ys
      → length ys + length k.lists.sleeping < length nows
      → (early later : List ℕ) × (nows ≡ early ++ later) × ((preempts early k).running ≡ y)
  unfolding Nearer
  preempts-runs [] k xs y ys v other at enough = absurd (omega arith)
  preempts-runs (now ∷ nows) k xs y ys v other at enough =
      let k' = preempt sched_ktcb tid now k in
      let (runs, ne, near) = preempt-Nearer now k xs y ys v other at in
      elim near [
        | inl e ↦ (now ∷ [], nows, refl, e)
        | inr (xs', ys', at', less) ↦
            let (early, later, split, e) =
              preempts-runs nows k' xs' y ys' runs ne at' (omega arith) in
            (now ∷ early, later, ap (λ (r : List ℕ). now ∷ r) split, e)
      ]
