-- ===== src/Semaphore/Permits.antt =====
-- A semaphore's count beside the threads that have its permits and those that wait.
use unix_kernel.Base.{
  ℕ, zero, suc, ◌+◌, ◌≤◌, ◌<◌, ◌≡◌, ◌≢◌, refl, ap, subst, ◌∙◌, true, false, Bool-cases, inl, inr,
  Option, none, some, List, [], ◌∷◌, ◌++◌, arith, ℤ, pos, negsuc, ◌==◌, ltb, lt_int, int_inc,
  int_dec, if◌then◌else◌, length, last-cases,
}
use unix_kernel.Sched.{take_last}
use unix_kernel.Sched.Places.{count, count-take_last}
use unix_kernel.Sched.Turns.{take_last-append}
use unix_kernel.Semaphore.{
  Sem, System, enqueue, dequeue, cond_wait, cond_signal, sem_init, cond_init, sem_wait, sem_signal,
  after_wait, after_signal, set_asleep, woken, Step, wait, deschedule, signal, wake, Steps, stay,
  then_step,
}

-- Does a thread wake with the permit of another?
abbrev pub one_more : (waking : ℕ) → ℕ
one_more waking = if waking == 0 then 0 else 1

-- Each of the `n` permits and of those that sem_signal gave is free, has been taken or is on its way to
-- a thread, and threads wait in the queue only when none is free, as many as the count is below 0.
pub data IsSem (n : ℕ) (s : System) : Type 0 where
  free :
      (a : ℕ)
      → s.sem.count ≡ pos a
      → s.sem.cv.wait_tids ≡ some []
      → length s.passed + one_more s.waking + a ≡ n + s.signals
      → IsSem n s
  short :
      (k : ℕ) (q : List ℕ)
      → s.sem.count ≡ negsuc k
      → s.sem.cv.wait_tids ≡ some q
      → length q ≡ suc k
      → count 0 q ≡ 0
      → length s.passed + one_more s.waking ≡ n + s.signals
      → IsSem n s

dequeue-append : (ys : List ℕ) (y : ℕ) → dequeue (some (ys ++ y ∷ [])) ≡ (y, some ys)
unfolding dequeue
dequeue-append ys y = rw (dequeue, take_last-append ys y) refl

length-zero : (ys : List ℕ) → length ys ≡ 0 → ys ≡ []
length-zero [] e = refl
length-zero (y ∷ ys) e = absurd (omega arith)

module _ (s : System) where
  wait-free :
      (t b : ℕ)
      → s.sem.count ≡ pos (suc b)
      → after_wait s t ≡ record s { sem = record s.sem { count = pos b }; passed = t ∷ s.passed }
  unfolding after_wait sem_wait
  wait-free t b e = let high : ltb b 0 ≡ false = ground arith in rw (e, high) refl

  wait-short :
      (t k : ℕ) (q : List ℕ)
      → int_dec s.sem.count ≡ negsuc k
      → s.sem.cv.wait_tids ≡ some q
      → after_wait s t ≡ record s {
        sem = record s.sem { count = negsuc k; cv = record s.sem.cv { wait_tids = some (t ∷ q) } };
      }
  unfolding after_wait sem_wait cond_wait enqueue
  wait-short t k q e there = rw (e, there) refl

  signal-free :
      (a : ℕ)
      → s.sem.count ≡ pos a
      → after_signal s ≡ record s {
        sem = record s.sem { count = pos (suc a) };
        signals = suc s.signals;
        waking = 0;
      }
  unfolding after_signal sem_signal cond_signal
  signal-free a e = let high : ltb (suc a) 1 ≡ false = ground arith in rw (e, high) refl

  signal-short :
      (c : ℤ) (ys : List ℕ) (y : ℕ)
      → int_inc s.sem.count ≡ c
      → lt_int c (pos 1) ≡ true
      → s.sem.cv.wait_tids ≡ some (ys ++ y ∷ [])
      → after_signal s ≡ record s {
        sem = record s.sem { count = c; cv = record s.sem.cv { wait_tids = some ys } };
        signals = suc s.signals;
        waking = y;
      }
  unfolding after_signal sem_signal cond_signal
  signal-short c ys y e low there = rw (e, low, there, dequeue-append ys y) refl

  wait-IsSem : (n t : ℕ) → t ≢ 0 → IsSem n s → IsSem n (after_wait s t)
  unfolding count
  wait-IsSem n t ne (free zero e there sum) =
      rw (wait-short t 0 [] (ap int_dec e) there)
        (short 0 (t ∷ []) refl refl refl (ground arith) (omega arith))
  wait-IsSem n t ne (free (suc b) e there sum) =
      rw (wait-free t b e) (free b refl there (omega arith))
  wait-IsSem n t ne (short k q e there len no_null sum) =
      rw (wait-short t (suc k) q (ap int_dec e) there)
        (short (suc k) (t ∷ q) refl refl (omega arith) (ground arith) sum)

  last_waiter :
      (k : ℕ) (q : List ℕ)
      → s.sem.cv.wait_tids ≡ some q
      → length q ≡ suc k
      → count 0 q ≡ 0
      → (ys : List ℕ) × (y : ℕ) × (s.sem.cv.wait_tids ≡ some (ys ++ y ∷ []))
        × (length ys ≡ k)
        × (count 0 ys ≡ 0)
        × (y ≢ 0)
  last_waiter k q there len no_null = elim (last-cases q) [
    | inl f ↦ absurd (let z = ap length f in omega arith)
    | inr (ys, y, f, m) ↦
        let split = count-take_last 0 y q ys (ap take_last f ∙ take_last-append ys y) in
        (
          ys,
          y,
          there ∙ ap (λ (r : List ℕ). some r) f,
          omega arith,
          omega arith,
          λ z. ground (arith, split),
        )
  ]

  signal-IsSem : (n : ℕ) → s.waking ≡ 0 → IsSem n s → IsSem n (after_signal s)
  unfolding count
  signal-IsSem n none_wakes (free a e there sum) =
      rw (signal-free a e) (free (suc a) refl there (ground arith))
  signal-IsSem n none_wakes (short zero q e there len no_null sum) =
      let (ys, y, there', m, no_null', ne) = last_waiter 0 q there len no_null in
      let queue = there' ∙ ap (λ (r : List ℕ). some (r ++ y ∷ [])) (length-zero ys m) in
      let wakes : one_more y ≡ 1 = ground arith in
      rw (signal-short (pos 0) [] y (ap int_inc e) refl queue) (free 0 refl refl (ground arith))
  signal-IsSem n none_wakes (short (suc k) q e there len no_null sum) =
      let (ys, y, there', m, no_null', ne) = last_waiter (suc k) q there len no_null in
      let wakes : one_more y ≡ 1 = ground arith in
      rw (signal-short (negsuc k) ys y (ap int_inc e) refl there')
        (short k ys refl refl m no_null' (ground arith))

Step-IsSem : (n : ℕ) (s s' : System) → IsSem n s → Step s s' → IsSem n s'
Step-IsSem n s s' v (wait _ t ne awake none_wakes) = wait-IsSem s n t ne v
Step-IsSem n s s' v (signal _ none_wakes) = signal-IsSem s n none_wakes v
Step-IsSem n s s' (free a e there sum) (deschedule _ t xs ys waits) =
    unfold set_asleep in free a e there sum
Step-IsSem n s s' (short k q e there len no_null sum) (deschedule _ t xs ys waits) =
    unfold set_asleep in short k q e there len no_null sum
Step-IsSem n s s' (free a e there sum) (wake _ ne asleep) =
    unfold woken set_asleep in free a e there (ground arith)
Step-IsSem n s s' (short k q e there len no_null sum) (wake _ ne asleep) =
    unfold woken set_asleep in short k q e there len no_null (ground arith)

Steps-IsSem : (n : ℕ) (s s' : System) → IsSem n s → Steps s s' → IsSem n s'
Steps-IsSem n s s' v (stay _) = v
Steps-IsSem n s s' v (then_step _ mid _ steps step) =
    Step-IsSem n mid s' (Steps-IsSem n s mid v steps) step

-- From a thread that cond_signal calls make_runnable for to one whose sem_wait has ended.
wake_up :
    (s : System)
    → s.waking ≢ 0
    → (s' : System) × Steps s s'
      × (s'.passed ≡ s.waking ∷ s.passed)
      × (s'.waking ≡ 0)
      × (s'.sem ≡ s.sem)
unfolding woken set_asleep
wake_up s ne = elim (Bool-cases (s.asleep s.waking)) [
  | inl e ↦ (woken s, then_step s s (woken s) (stay s) (wake s ne e), refl, refl, refl)
  | inr e ↦
      let late = set_asleep s s.waking true in
      (
        woken late,
        then_step s late (woken late)
            (then_step s s late (stay s) (deschedule s s.waking [] [] (inl refl)))
            (wake late ne (unfold set_asleep in ground arith)),
        refl,
        refl,
        refl,
      )
]

-- The threads that use a semaphore that sem_init gave the count `n`.
abbrev pub start : Sem → System
start sem = record { sem = sem; passed = []; signals = 0; waking = 0; asleep = λ _. false }

start-IsSem :
    (n : ℕ) (raw sem : Sem) → (sem_init true (some raw) (pos n)).1 ≡ some sem → IsSem n (start sem)
unfolding sem_init cond_init
start-IsSem n raw sem e =
    let same = ap (λ (o : Option Sem). elim o [ none ↦ raw | some x ↦ x ]) e in
    subst (λ (x : Sem). IsSem n (start x)) same (free n refl refl (omega arith))

-- After any calls of sem_wait and sem_signal by any threads, in any order of their steps, on a semaphore
-- that sem_init gave the count `n`, with memory for its queue: no more calls of sem_wait have ended
-- than `n` and the calls of sem_signal together. While there are fewer of them, with the thread that
-- is being woken, nobody waits in the queue, so that no wake-up is lost. Where sem_signal is waking
-- a thread, there are steps after which that thread's sem_wait has ended.
pub sem_lem :
    (n : ℕ) (raw sem : Sem) (s : System)
    → (sem_init true (some raw) (pos n)).1 ≡ some sem
    → Steps (start sem) s
    → (length s.passed ≤ n + s.signals)
      × (length s.passed + one_more s.waking < n + s.signals → s.sem.cv.wait_tids ≡ some [])
      × (s.waking ≢ 0
          → (s' : System) × Steps s s'
            × (s'.passed ≡ s.waking ∷ s.passed)
            × (s'.waking ≡ 0)
            × (s'.sem ≡ s.sem))
sem_lem n raw sem s e steps = (
  elim (Steps-IsSem n (start sem) s (start-IsSem n raw sem e) steps) [
    | free a _ _ sum ↦ omega arith
    | short _ _ _ _ _ _ sum ↦ omega arith
  ],
  λ few. elim (Steps-IsSem n (start sem) s (start-IsSem n raw sem e) steps) [
    | free a _ there sum ↦ there
    | short _ _ _ _ _ _ sum ↦ absurd (omega arith)
  ],
  wake_up s,
)
