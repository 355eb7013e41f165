-- ===== src/Mutex/Next.antt =====
-- What the switches of mutex.c and of the timer need of sched.c's sched_next.
use unix_kernel.Base.{ℕ, ◌≡◌, ◌≢◌, inl, inr, arith}
use unix_kernel.Sched.{Sched, sched_next}
use unix_kernel.Sched.Places.{places, IsSched}
use unix_kernel.Sched.Takes.{IsTaken}
use unix_kernel.Sched.Turns.{sched_next-IsTaken}

-- The thread `n` comes next and stands in no list any more; what stood in none is another thread.
pub record IsNext (sched_ktcb : ℕ) (tid : ℕ → ℕ) (s : Sched) (n : ℕ) (s' : Sched) : Type 0 where
  pub valid : IsSched sched_ktcb tid s'
  pub free : places tid s' n ≡ 0
  pub not_null : n ≢ 0
  pub apart : (t : ℕ) → t ≢ sched_ktcb → places tid s t ≡ 0 → (t ≢ n) × (places tid s' t ≡ 0)

module _ (sched_ktcb : ℕ) (tid : ℕ → ℕ) (not_null : sched_ktcb ≢ 0) where
  pub taken-IsNext :
      {s s' : Sched} (n : ℕ)
      → IsSched sched_ktcb tid s
      → IsTaken sched_ktcb tid n s s'
      → IsNext sched_ktcb tid s n s'
  taken-IsNext n v t = record {
    valid = t.valid;
    free = let sum = t.removes n in let old = v.once n in ground arith;
    not_null = t.not_null;
    apart = λ j ne z. let sum = t.removes j in ((λ e. ground arith), omega arith);
  }

  pub sched_next-IsNext :
      (now : ℕ) (s : Sched)
      → IsSched sched_ktcb tid s
      → IsNext sched_ktcb tid s
          (sched_next sched_ktcb tid now s).0
          (sched_next sched_ktcb tid now s).1
  sched_next-IsNext now s v = elim (sched_next-IsTaken sched_ktcb tid now s v) [
    | inl e ↦
        rw e
          (record { valid = v; free = v.no_sched; not_null = not_null; apart = λ j ne z. (ne, z) })
    | inr t ↦ taken-IsNext _ v t
  ]
