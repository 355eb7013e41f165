-- ===== src/Sched/Puts.antt =====
-- How a thread that runs, and so stands in none of sched.c's lists, is put into one of them.
use unix_kernel.Base.{
  ℕ, ◌+◌, ◌≡◌, ◌≢◌, refl, sym, ap, ◌∙◌, false, Bool-cases, inl, inr, none, some, arith, pos, ◌∷◌,
  minus_one, ◌==◌, has, eq_of_==, ==_of_ne, ==_of_eq,
}
use unix_kernel.TimedQueue.{tq_find}
use unix_kernel.TimedQueue.Order.{IsSorted, IsSorted-insert}
use unix_kernel.StHash.{sht_insert, sht_lookup}
use unix_kernel.StHash.Laws.{IsSht, held, sht_insert_lem, sht_lookup_lem}
use unix_kernel.Sched.Places.{
  one_if, count, places, IsSched, has-count, tq_find-count, count_sleeping-insert,
  count_waiting-insert, held-ne-null,
}
use unix_kernel.Sched.{
  Sched, sched_running_to_runnable, sched_running_to_sleep, sched_running_to_waiting,
}

-- `s'` is `s` with the thread `k` put into one list.
pub record IsPut (sched_ktcb : ℕ) (tid : ℕ → ℕ) (k : ℕ) (s s' : Sched) : Type 0 where
  pub valid : IsSched sched_ktcb tid s'
  pub adds : (j : ℕ) → places tid s' j ≡ places tid s j + one_if (j == k)

module _ (sched_ktcb : ℕ) (tid : ℕ → ℕ) where
  put :
      {s s' : Sched} (k : ℕ)
      → IsSched sched_ktcb tid s
      → places tid s k ≡ 0
      → k ≢ 0
      → k ≢ sched_ktcb
      → IsSht s'.waiting
      → ((t j : ℕ) → held s'.waiting t ≡ some j → tid j ≡ t)
      → IsSorted s'.sleeping
      → ((j : ℕ) → places tid s' j ≡ places tid s j + one_if (j == k))
      → IsPut sched_ktcb tid k s s'
  put {s} {s'} k v z ne ne_sched table keys sorted adds = record {
    valid = record {
      table = table;
      keys = keys;
      sorted = sorted;
      once = λ j. elim (Bool-cases (j == k)) [
        | inl e ↦ let at = ap (places tid s) (eq_of_== j k e) in let sum = adds j in ground arith
        | inr e ↦ let old = v.once j in let sum = adds j in ground arith
      ];
      no_sched = let old = v.no_sched in let sum = adds sched_ktcb in ground arith;
      no_null = let old = v.no_null in let sum = adds 0 in ground arith;
    };
    adds = adds;
  }

  runnable_put :
      (s : Sched) (k : ℕ)
      → IsSched sched_ktcb tid s
      → places tid s k ≡ 0
      → k ≢ 0
      → k ≢ sched_ktcb
      → ((sched_running_to_runnable sched_ktcb tid s k).0 ≡ pos 0)
        × IsPut sched_ktcb tid k s (sched_running_to_runnable sched_ktcb tid s k).1
  unfolding sched_running_to_runnable
  runnable_put s k v z ne ne_sched =
      let absent : has k s.runnable ≡ false =
        has-count k s.runnable (unfold places in omega arith) in
      rw (sched_running_to_runnable, ==_of_ne k sched_ktcb ne_sched, absent)
        (
          refl,
          put k v z ne ne_sched v.table v.keys v.sorted (λ j. unfold places count in omega arith),
        )

  -- The thread stands at the head of the runnable ones, the rest is as before.
  pub runnable_put-head :
      (s : Sched) (k : ℕ)
      → places tid s k ≡ 0
      → k ≢ sched_ktcb
      → sched_running_to_runnable sched_ktcb tid s k
        ≡ (pos 0, record s { runnable = k ∷ s.runnable })
  unfolding sched_running_to_runnable
  runnable_put-head s k z ne_sched =
      let absent : has k s.runnable ≡ false =
        has-count k s.runnable (unfold places in omega arith) in
      rw (sched_running_to_runnable, ==_of_ne k sched_ktcb ne_sched, absent) refl

  sleep_put :
      (s : Sched) (k ticks : ℕ)
      → IsSched sched_ktcb tid s
      → places tid s k ≡ 0
      → k ≢ 0
      → k ≢ sched_ktcb
      → ((sched_running_to_sleep sched_ktcb tid s k ticks).0 ≡ pos 0)
        × IsPut sched_ktcb tid k s (sched_running_to_sleep sched_ktcb tid s k ticks).1
  unfolding sched_running_to_sleep
  sleep_put s k ticks v z ne ne_sched =
      let absent : tq_find k s.sleeping ≡ pos 0 =
        tq_find-count k s.sleeping (unfold places in omega arith) in
      rw (sched_running_to_sleep, absent)
        (
          refl,
          put k v z ne ne_sched v.table v.keys (IsSorted-insert k ticks s.sleeping v.sorted) (λ j.
              let new = count_sleeping-insert j k ticks s.sleeping in unfold places in omega arith),
        )

  waiting_put :
      (s : Sched) (k : ℕ)
      → IsSched sched_ktcb tid s
      → places tid s k ≡ 0
      → k ≢ 0
      → k ≢ sched_ktcb
      → held s.waiting (tid k) ≡ none
      → ((sched_running_to_waiting sched_ktcb tid s k).0 ≡ pos 0)
        × IsPut sched_ktcb tid k s (sched_running_to_waiting sched_ktcb tid s k).1
  unfolding sched_running_to_waiting
  waiting_put s k v z ne ne_sched f =
      let free : sht_lookup s.waiting (tid k) ≡ 0 =
        sht_lookup_lem s.waiting (tid k) v.table ∙ rw f refl in
      rw (sched_running_to_waiting, ==_of_ne k sched_ktcb ne_sched, ==_of_eq _ _ free)
        (elim (sht_insert_lem s.waiting (tid k) k v.table) [
          | inl (there, _) ↦ ground arith
          | inr (_, _, table, holds) ↦ (
            refl,
            put k v z ne ne_sched table
                (λ t j e. elim (Bool-cases (t == tid k)) [
                  | inl q ↦
                      let is : some k ≡ some j = sym (holds t ∙ rw q refl) ∙ e in
                      let same : k ≡ j = ground arith in
                      ap tid (sym same) ∙ sym (eq_of_== t (tid k) q)
                  | inr q ↦ v.keys t j (sym (holds t ∙ rw q refl) ∙ e)
                ])
                v.sorted
                (λ j.
                  let new =
                    count_waiting-insert tid s.waiting (sht_insert s.waiting (tid k) k).1 j k f
                      holds in
                  unfold places in omega arith),
          )
        ])

  taken_id :
      (s : Sched) (k old : ℕ)
      → IsSched sched_ktcb tid s
      → k ≢ sched_ktcb
      → held s.waiting (tid k) ≡ some old
      → sched_running_to_waiting sched_ktcb tid s k ≡ (minus_one, s)
  unfolding sched_running_to_waiting
  taken_id s k old v ne_sched f =
      let there : sht_lookup s.waiting (tid k) ≡ old =
        sht_lookup_lem s.waiting (tid k) v.table ∙ rw f refl in
      let ne : sht_lookup s.waiting (tid k) ≢ 0 =
        λ z. held-ne-null (tid k) old v f (sym there ∙ z) in
      rw (sched_running_to_waiting, ==_of_ne k sched_ktcb ne_sched, ==_of_ne _ _ ne) refl

  -- In well-formed lists, a thread that stands in none of them, is not NULL and is not the
  -- scheduler's: sched_running_to_runnable and sched_running_to_sleep answer 0, put it into their
  -- list, and keep the lists well formed, each thread in at most one place. So does
  -- sched_running_to_waiting, unless a thread with its id is there: then it answers -1 and changes
  -- nothing.
  pub running_to_lem :
      (s : Sched) (k ticks : ℕ)
      → IsSched sched_ktcb tid s
      → places tid s k ≡ 0
      → k ≢ 0
      → k ≢ sched_ktcb
      → ((sched_running_to_runnable sched_ktcb tid s k).0 ≡ pos 0)
        × IsPut sched_ktcb tid k s (sched_running_to_runnable sched_ktcb tid s k).1
        × ((sched_running_to_sleep sched_ktcb tid s k ticks).0 ≡ pos 0)
        × IsPut sched_ktcb tid k s (sched_running_to_sleep sched_ktcb tid s k ticks).1
        × (held s.waiting (tid k) ≡ none
            → ((sched_running_to_waiting sched_ktcb tid s k).0 ≡ pos 0)
              × IsPut sched_ktcb tid k s (sched_running_to_waiting sched_ktcb tid s k).1)
        × ((old : ℕ)
            → held s.waiting (tid k) ≡ some old
            → sched_running_to_waiting sched_ktcb tid s k ≡ (minus_one, s))
  running_to_lem s k ticks v z ne ne_sched = (
    (runnable_put s k v z ne ne_sched).0,
    (runnable_put s k v z ne ne_sched).1,
    (sleep_put s k ticks v z ne ne_sched).0,
    (sleep_put s k ticks v z ne ne_sched).1,
    waiting_put s k v z ne ne_sched,
    λ old. taken_id s k old v ne_sched,
  )
