-- ===== src/SpinLock/Inv.antt =====
-- What holds of the spinning mutex and its threads between any two steps.
use unix_kernel.Base.{
  ℕ, ◌+◌, ◌≡◌, ◌≢◌, refl, ap, true, false, Bool-cases, inl, inr, ◌⊎◌, List, [], ◌∷◌, arith, ◌==◌,
  eq_of_==,
}
use unix_kernel.Sched.Places.{count}
use unix_kernel.SpinLock.{Place, outside, spinning, inside, leaving, System, at_place}

abbrev pub busy : Place → ℕ
busy outside = 0
busy spinning = 1
busy inside = 1
busy leaving = 1

-- How many of the threads are at the mutex.
unfoldable pub at_mutex : (ℕ → Place) → List ℕ → ℕ
at_mutex p [] = 0
at_mutex p (t ∷ ts) = busy (p t) + at_mutex p ts

at_mutex-other :
    (p : ℕ → Place) (t : ℕ) (x : Place) (ts : List ℕ)
    → count t ts ≡ 0
    → at_mutex (at_place p t x) ts ≡ at_mutex p ts
unfolding at_mutex at_place count
at_mutex-other p t x [] z = refl
at_mutex-other p t x (u ∷ ts) z = elim (Bool-cases (t == u)) [
  | inl e ↦ ground arith
  | inr e ↦ let rest = at_mutex-other p t x ts (ground arith) in ground arith
]

pub at_mutex-set :
    (p : ℕ → Place) (t : ℕ) (x : Place) (ts : List ℕ)
    → count t ts ≡ 1
    → at_mutex (at_place p t x) ts + busy (p t) ≡ at_mutex p ts + busy x
unfolding at_mutex at_place count
at_mutex-set p t x [] z = ground arith
at_mutex-set p t x (u ∷ ts) z = elim (Bool-cases (t == u)) [
  | inl e ↦
      let same = eq_of_== t u e in
      let rest = at_mutex-other p t x ts (ground arith) in
      let now : at_place p t x u ≡ x = unfold at_place in ground arith in
      omega (arith, rest, ap busy now, ap (λ (j : ℕ). busy (p j)) same)
  | inr e ↦ let rest = at_mutex-set p t x ts (ground arith) in ground arith
]

-- The threads are the `ts`, each of them once.
pub record IsSystem (ts : List ℕ) (s : System) : Type 0 where
  pub init : s.mutex.init ≡ true
  pub known : (t : ℕ) → s.place t ≢ outside → count t ts ≡ 1
  pub counted : s.mutex.threads_count ≡ at_mutex s.place ts
  pub one : (t u : ℕ) → s.place t ≡ inside → s.place u ≡ inside → t ≡ u
  pub shut : (t : ℕ) → s.place t ≡ inside → s.mutex.available ≡ false
  pub owned : (s.mutex.available ≡ true) ⊎ ((t : ℕ) × (s.place t ≡ inside))
