-- ===== src/RwLock/Weights.antt =====
-- How many threads stand at which places of the reader-writer lock.
use unix_kernel.Base.{
  ℕ, ◌+◌, ◌≤◌, ◌≡◌, refl, ap, Bool, true, false, not, ◌&&◌, ◌||◌, Bool-cases, inl, inr, List, [],
  ◌∷◌, arith, ◌==◌, eq_of_==, has,
}
use unix_kernel.Sched.Places.{count}
use unix_kernel.RwLock.{
  Place, outside, read_count_up, read_wait_rw, read_signal_mutex, reading, done_wait_mutex,
  done_count_down, done_signal_mutex, write_wait_enter, write_wait_rw, writing, done_signal_rw,
  down_signal_enter, down_signal_rw, at_place, insert_key, delete_key,
}

-- Between sem_wait and sem_signal of `mutex`, but not about to wait for `rw_mutex`.
abbrev pub in_section : Place → ℕ
in_section read_count_up = 1
in_section read_signal_mutex = 1
in_section done_count_down = 1
in_section done_signal_mutex = 1
in_section _ = 0

abbrev pub first_reader : Place → ℕ
first_reader read_wait_rw = 1
first_reader _ = 0

-- A counted thread that is not the first reader.
abbrev pub later_reader : Place → ℕ
later_reader read_signal_mutex = 1
later_reader reading = 1
later_reader done_wait_mutex = 1
later_reader done_count_down = 1
later_reader _ = 0

-- Counted in `read_count`.
abbrev pub counted : Place → ℕ
counted x = first_reader x + later_reader x

-- Has taken `rw_mutex` as a writer.
abbrev pub excludes : Place → ℕ
excludes writing = 1
excludes done_signal_rw = 1
excludes down_signal_enter = 1
excludes down_signal_rw = 1
excludes _ = 0

-- In the tree of writers.
abbrev pub writes : Place → Bool
writes write_wait_enter = true
writes write_wait_rw = true
writes writing = true
writes _ = false

module _ (w : Place → ℕ) where
  unfoldable pub total : (ℕ → Place) → List ℕ → ℕ
  total p [] = 0
  total p (t ∷ ts) = w (p t) + total p ts

  total-other :
      (p : ℕ → Place) (t : ℕ) (x : Place) (ts : List ℕ)
      → count t ts ≡ 0
      → total (at_place p t x) ts ≡ total p ts
  unfolding total at_place count
  total-other p t x [] z = refl
  total-other p t x (u ∷ ts) z = elim (Bool-cases (t == u)) [
    | inl e ↦ ground arith
    | inr e ↦
        let rest = total-other p t x ts (ground arith) in
        let same : at_place p t x u ≡ p u = unfold at_place in ground arith in
        omega (arith, rest, ap w same)
  ]

  pub total-set :
      (p : ℕ → Place) (t : ℕ) (x : Place) (ts : List ℕ)
      → count t ts ≡ 1
      → total (at_place p t x) ts + w (p t) ≡ total p ts + w x
  unfolding total count
  total-set p t x [] z = ground arith
  total-set p t x (u ∷ ts) z = elim (Bool-cases (t == u)) [
    | inl e ↦
        let same = eq_of_== t u e in
        let rest = total-other p t x ts (ground arith) in
        let now : at_place p t x u ≡ x = unfold at_place in ground arith in
        omega (arith, rest, ap w now, ap (λ (j : ℕ). w (p j)) same)
    | inr e ↦
        let rest = total-set p t x ts (ground arith) in
        let same : at_place p t x u ≡ p u = unfold at_place in ground arith in
        omega (arith, rest, ap w same)
  ]

  pub total-bound : (p : ℕ → Place) (t : ℕ) (ts : List ℕ) → count t ts ≡ 1 → w (p t) ≤ total p ts
  unfolding total count
  total-bound p t [] z = ground arith
  total-bound p t (u ∷ ts) z = elim (Bool-cases (t == u)) [
    | inl e ↦ let same = ap (λ (j : ℕ). w (p j)) (eq_of_== t u e) in omega (arith, same)
    | inr e ↦ let rest = total-bound p t ts (ground arith) in omega (arith, rest)
  ]

pub total-counted :
    (p : ℕ → Place) (ts : List ℕ)
    → total counted p ts ≡ total first_reader p ts + total later_reader p ts
unfolding total
total-counted p [] = refl
total-counted p (t ∷ ts) = omega (arith, total-counted p ts)

pub total-outside : (w : Place → ℕ) (ts : List ℕ) → w outside ≡ 0 → total w (λ _. outside) ts ≡ 0
unfolding total
total-outside w [] e = refl
total-outside w (t ∷ ts) e = omega (arith, total-outside w ts e)

pub has-insert_key : (j t : ℕ) (q : List ℕ) → has j (insert_key q t) ≡ ((j == t) || has j q)
unfolding insert_key
has-insert_key j t q = elim (Bool-cases (has t q)) [
  | inl e ↦ elim (Bool-cases (j == t)) [
    | inl f ↦ rw (e, f, ap (λ (k : ℕ). has k q) (eq_of_== j t f), e) refl
    | inr f ↦ rw (e, f) refl
  ]
  | inr e ↦ rw e refl
]

pub has-delete_key : (j t : ℕ) (q : List ℕ) → has j (delete_key q t) ≡ (not (j == t) && has j q)
unfolding delete_key
has-delete_key j t [] = ground arith
has-delete_key j t (x ∷ q) = let rest = has-delete_key j t q in ground arith
