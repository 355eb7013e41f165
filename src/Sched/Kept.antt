-- ===== src/Sched/Kept.antt =====
-- A running thread and the lists of sched.c: who takes over, and that no thread gets lost.
use unix_kernel.Base.{
  ℕ, ◌+◌, ◌≡◌, ◌≢◌, ap, Bool, true, Bool-cases, Option-cases, inl, inr, some, List, [], ◌∷◌, arith,
  pos, ◌==◌, eq_of_==,
}
use unix_kernel.Sched.Places.{one_if, places, IsSched}
use unix_kernel.Sched.Puts.{IsPut}
use unix_kernel.Sched.Takes.{IsTaken}
use unix_kernel.Sched.{Sched, take_first, not_sched, taken_runnable, sched_runnable_to_running}

-- The lists are well formed, and the running thread stands in none of them.
pub record IsRunning (sched_ktcb : ℕ) (tid : ℕ → ℕ) (s : Sched) (running : ℕ) : Type 0 where
  pub valid : IsSched sched_ktcb tid s
  pub not_null : running ≢ 0
  pub free : places tid s running ≡ 0

-- How often a thread runs or stands in a list.
abbrev pub present : (ℕ → ℕ) → Sched → (running : ℕ) → ℕ → ℕ
present tid s running j = places tid s j + one_if (j == running)

-- Another thread runs on other lists, and no thread but the scheduler's own came or went.
pub record IsKept (sched_ktcb : ℕ) (tid : ℕ → ℕ) (s : Sched) (r : ℕ) (s' : Sched) (r' : ℕ)
    : Type 0 where
  pub runs : IsRunning sched_ktcb tid s' r'
  pub same : (j : ℕ) → j ≢ sched_ktcb → present tid s' r' j ≡ present tid s r j

take_first-test :
    (test : ℕ → Bool) (xs : List ℕ) (y : ℕ) (ys : List ℕ)
    → take_first test xs ≡ some (y, ys)
    → test y ≡ true
unfolding take_first
take_first-test test [] y ys e = ground arith
take_first-test test (x ∷ xs) y ys e = elim (Bool-cases (test x)) [
  | inl t ↦ ground arith
  | inr t ↦ elim (Option-cases (take_first test xs)) [
    | inl n ↦ ground arith
    | inr ((z, zs), f) ↦ let rest = take_first-test test xs z zs f in ground arith
  ]
]

module _ (sched_ktcb : ℕ) (tid : ℕ → ℕ) where
  -- A thread taken from a list runs.
  pub taken-IsRunning :
      {s s' : Sched} (n : ℕ)
      → IsSched sched_ktcb tid s
      → IsTaken sched_ktcb tid n s s'
      → IsRunning sched_ktcb tid s' n
  taken-IsRunning n v t = record {
    valid = t.valid;
    not_null = t.not_null;
    free = let sum = t.removes n in let old = v.once n in ground arith;
  }

  -- The running thread is put into a list, then another is taken out.
  pub put_take-IsKept :
      {s s' s'' : Sched} (r n : ℕ)
      → IsPut sched_ktcb tid r s s'
      → IsTaken sched_ktcb tid n s' s''
      → IsKept sched_ktcb tid s r s'' n
  put_take-IsKept r n p t = record {
    runs = taken-IsRunning n p.valid t;
    same = λ j ne. let a = p.adds j in let b = t.removes j in omega arith;
  }

  -- Another thread is taken out, and differs from the running one.
  pub taken-apart :
      {s s' : Sched} (r n : ℕ)
      → IsRunning sched_ktcb tid s r
      → IsTaken sched_ktcb tid n s s'
      → (places tid s' r ≡ 0) × (n ≢ r) × (places tid s' n ≡ 0)
  taken-apart {s} r n v t =
      let sum = t.removes r in
      let gone = t.removes n in
      let once = v.valid.once n in
      let free = v.free in
      (omega arith, λ e. (let f = ap (places tid s) e in ground arith), ground arith)

  pub take_put-IsKept :
      {s s' s'' : Sched} (r n : ℕ)
      → IsRunning sched_ktcb tid s r
      → IsTaken sched_ktcb tid n s s'
      → IsPut sched_ktcb tid r s' s''
      → IsKept sched_ktcb tid s r s'' n
  take_put-IsKept r n v t p = record {
    runs = record {
      valid = p.valid;
      not_null = t.not_null;
      free = let apart = taken-apart r n v t in let a = p.adds n in ground arith;
    };
    same = λ j ne. let a = p.adds j in let b = t.removes j in omega arith;
  }

  -- A thread that is found by its id has that id.
  pub found-tid :
      (s : Sched) (t : ℕ)
      → (sched_runnable_to_running sched_ktcb tid s (pos t)).0 ≢ 0
      → tid (sched_runnable_to_running sched_ktcb tid s (pos t)).0 ≡ t
  unfolding sched_runnable_to_running taken_runnable not_sched
  found-tid s t ne = elim (Bool-cases (t == tid sched_ktcb)) [
    | inl e ↦ let same = eq_of_== t (tid sched_ktcb) e in ground arith
    | inr e ↦ elim (Option-cases (take_first (λ ktcb. t == tid ktcb) s.runnable)) [
      | inl f ↦ ground arith
      | inr ((y, ys), f) ↦
          let same = take_first-test (λ ktcb. t == tid ktcb) s.runnable y ys f in ground arith
    ]
  ]
