-- ===== src/Sched/Takes.antt =====
-- How sched.c's functions take a thread out of a list, to be run.
use unix_kernel.Base.{
  ℕ, zero, suc, ◌+◌, ◌≡◌, ◌≢◌, refl, sym, ap, ◌∙◌, Bool-cases, inl, inr, ◌⊎◌, Option, none, some,
  List, arith, ℤ, pos, negsuc, ◌==◌, ==_of_ne,
}
use unix_kernel.TimedQueue.{tq_get}
use unix_kernel.TimedQueue.Order.{IsSorted}
use unix_kernel.TimedQueue.Wakeup.{tq_get-IsSorted}
use unix_kernel.StHash.{sht_delete}
use unix_kernel.StHash.Laws.{IsSht, held, sht_delete_lem}
use unix_kernel.Sched.Places.{
  one_if, count, count_sleeping, places, IsSched, count-take_last, count-take_first, tq_get-count,
  count_waiting-delete,
}
use unix_kernel.Sched.{
  Sched, not_sched, taken_runnable, sched_runnable_to_running, sched_sleep_to_running,
  sched_waiting_to_running,
}

-- `s'` is `s` with the thread `k`, a thread that may run, taken out.
pub record IsTaken (sched_ktcb : ℕ) (tid : ℕ → ℕ) (k : ℕ) (s s' : Sched) : Type 0 where
  pub not_null : k ≢ 0
  pub other : k ≢ sched_ktcb
  pub valid : IsSched sched_ktcb tid s'
  pub removes : (j : ℕ) → places tid s j ≡ places tid s' j + one_if (j == k)

-- Nothing is found and nothing changes, or a thread is taken out.
abbrev pub TakesOne : ℕ → (ℕ → ℕ) → Sched → ℕ × Sched → Type 0
TakesOne sched_ktcb tid s r = (r ≡ (0, s)) ⊎ IsTaken sched_ktcb tid r.0 s r.1

module _ (sched_ktcb : ℕ) (tid : ℕ → ℕ) where
  take :
      {s s' : Sched} (k : ℕ)
      → IsSched sched_ktcb tid s
      → IsSht s'.waiting
      → ((t j : ℕ) → held s'.waiting t ≡ some j → tid j ≡ t)
      → IsSorted s'.sleeping
      → ((j : ℕ) → places tid s j ≡ places tid s' j + one_if (j == k))
      → IsTaken sched_ktcb tid k s s'
  take {s} {s'} k v table keys sorted removes = record {
    not_null = λ z. let none_there = v.no_null in let sum = removes 0 in ground arith;
    other = λ z. let none_there = v.no_sched in let sum = removes sched_ktcb in ground arith;
    valid = record {
      table = table;
      keys = keys;
      sorted = sorted;
      once = λ j. let old = v.once j in let sum = removes j in omega arith;
      no_sched = let old = v.no_sched in let sum = removes sched_ktcb in omega arith;
      no_null = let old = v.no_null in let sum = removes 0 in omega arith;
    };
    removes = removes;
  }

  null_stays : not_sched sched_ktcb tid 0 ≡ 0
  unfolding not_sched
  null_stays = elim (Bool-cases (0 == sched_ktcb)) [ inl e ↦ rw e refl | inr e ↦ rw e refl ]

  pub not_sched-other : (k : ℕ) → k ≢ sched_ktcb → not_sched sched_ktcb tid k ≡ k
  unfolding not_sched
  not_sched-other k ne = rw (==_of_ne k sched_ktcb ne) refl

  pub without_runnable :
      (s : Sched) (y : ℕ) (ys : List ℕ)
      → IsSched sched_ktcb tid s
      → ((k : ℕ) → count k s.runnable ≡ count k ys + one_if (k == y))
      → IsTaken sched_ktcb tid y s (record s { runnable = ys })
  without_runnable s y ys v h =
      take y v v.table v.keys v.sorted (λ j. let c = h j in unfold places in omega arith)

  taken_lem :
      (s : Sched) (y : ℕ) (ys : List ℕ)
      → IsSched sched_ktcb tid s
      → ((k : ℕ) → count k s.runnable ≡ count k ys + one_if (k == y))
      → IsTaken sched_ktcb tid
          (taken_runnable sched_ktcb tid s (some (y, ys))).0
          s
          (taken_runnable sched_ktcb tid s (some (y, ys))).1
  unfolding taken_runnable
  taken_lem s y ys v h = let t = without_runnable s y ys v h in rw (not_sched-other y t.other) t

  taken_runnable-TakesOne :
      (s : Sched) (found : Option (ℕ × List ℕ))
      → IsSched sched_ktcb tid s
      → ((y : ℕ) (ys : List ℕ)
          → found ≡ some (y, ys)
          → (k : ℕ) → count k s.runnable ≡ count k ys + one_if (k == y))
      → TakesOne sched_ktcb tid s (taken_runnable sched_ktcb tid s found)
  taken_runnable-TakesOne s none v h = inl (unfold taken_runnable in refl)
  taken_runnable-TakesOne s (some (y, ys)) v h = inr (taken_lem s y ys v (h y ys refl))

  pub runnable_take :
      (s : Sched) (t : ℤ)
      → IsSched sched_ktcb tid s
      → TakesOne sched_ktcb tid s (sched_runnable_to_running sched_ktcb tid s t)
  unfolding sched_runnable_to_running
  runnable_take s (pos t) v = elim (Bool-cases (t == tid sched_ktcb)) [
    | inl e ↦ rw e (inl refl)
    | inr e ↦ rw e (
        taken_runnable-TakesOne s _ v
          (λ y ys f k. count-take_first k y (λ ktcb. t == tid ktcb) s.runnable ys f))
  ]
  runnable_take s (negsuc zero) v =
      taken_runnable-TakesOne s _ v (λ y ys f k. count-take_last k y s.runnable ys f)
  runnable_take s (negsuc (suc n)) v = inl refl

  pub sleep_take :
      (now : ℕ) (s : Sched)
      → IsSched sched_ktcb tid s
      → TakesOne sched_ktcb tid s (sched_sleep_to_running sched_ktcb tid now s)
  unfolding sched_sleep_to_running
  sleep_take now s v =
      let no_null : count_sleeping 0 s.sleeping ≡ 0 =
        let z = v.no_null in unfold places in omega arith in
      elim (tq_get-count now s.sleeping no_null) [
        | inl e ↦ rw e (inl refl)
        | inr (ne, h) ↦ inr (
            take (tq_get now s.sleeping).0 v v.table v.keys
              (tq_get-IsSorted now s.sleeping v.sorted)
              (λ j. let c = h j in unfold places in omega arith))
      ]

  waiting_take :
      (s : Sched) (t : ℕ)
      → IsSched sched_ktcb tid s
      → TakesOne sched_ktcb tid s (sched_waiting_to_running sched_ktcb tid s t)
  unfolding sched_waiting_to_running
  waiting_take s t v = elim (Bool-cases (t == tid sched_ktcb)) [
    | inl e ↦ rw e (inl refl)
    | inr e ↦ elim (sht_delete_lem s.waiting t v.table) [
      | inl (f, same) ↦ rw (e, same) (inl (ap (λ x. (x, s)) null_stays))
      | inr (f, table, holds) ↦
          let k = (sht_delete s.waiting t).0 in
          let taken : IsTaken sched_ktcb tid k s
              (record s { waiting = (sht_delete s.waiting t).1 }) =
            take k v table
              (λ x j g. elim (Bool-cases (x == t)) [
                | inl q ↦ let no : none ≡ some j = sym (holds x ∙ rw q refl) ∙ g in ground arith
                | inr q ↦ v.keys x j (sym (holds x ∙ rw q refl) ∙ g)
              ])
              v.sorted
              (λ j.
                let c =
                  count_waiting-delete tid s.waiting (sht_delete s.waiting t).1 j k t f
                    (v.keys t k f) holds in
                unfold places in omega arith) in
          rw (e, not_sched-other k taken.other) (inr taken)
    ]
  ]

  -- From well-formed lists sched_runnable_to_running with any id, or with -1,
  -- sched_waiting_to_running with any id and sched_sleep_to_running at any time each answer NULL and
  -- change nothing, or answer a thread that is neither NULL nor the scheduler's. In that case it is
  -- taken out of the list where it stood, no other thread is, and the lists stay well formed.
  pub to_running_lem :
      (s : Sched)
      → IsSched sched_ktcb tid s
      → ((t : ℤ) → TakesOne sched_ktcb tid s (sched_runnable_to_running sched_ktcb tid s t))
        × ((t : ℕ) → TakesOne sched_ktcb tid s (sched_waiting_to_running sched_ktcb tid s t))
        × ((now : ℕ) → TakesOne sched_ktcb tid s (sched_sleep_to_running sched_ktcb tid now s))
  to_running_lem s v =
      (λ t. runnable_take s t v, λ t. waiting_take s t v, λ now. sleep_take now s v)
