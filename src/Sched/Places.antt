-- ===== src/Sched/Places.antt =====
-- How often a thread stands in the scheduler's lists, and how one list's operations change that.
use unix_kernel.Base.{
  ℕ, ◌+◌, ◌≤◌, ◌≡◌, ◌≢◌, refl, Bool, false, Bool-cases, Option-cases, inl, inr, ◌⊎◌, none, some,
  List, [], ◌∷◌, arith, pos, ◌==◌, if◌then◌else◌, has, ltb, eq_of_==, ne_of_==, ==_of_ne, ap, ◌∙◌,
}
use unix_kernel.TimedQueue.{TimedQueue, tq_insert, tq_get, tq_find}
use unix_kernel.StHash.{Sht}
use unix_kernel.StHash.Laws.{IsSht, held}
use unix_kernel.TimedQueue.Order.{IsSorted}
use unix_kernel.Sched.{Sched, take_last, take_first}

abbrev pub one_if : Bool → ℕ
one_if b = if b then 1 else 0

unfoldable pub count : ℕ → List ℕ → ℕ
count k [] = 0
count k (x ∷ xs) = one_if (k == x) + count k xs

unfoldable pub count_sleeping : ℕ → TimedQueue → ℕ
count_sleeping k [] = 0
count_sleeping k (n ∷ tq) = one_if (k == n.payload) + count_sleeping k tq

module _ (tid : ℕ → ℕ) where
  unfoldable pub count_waiting : ℕ → Sht → ℕ
  count_waiting k t = elim (held t (tid k)) [ none ↦ 0 | some value ↦ one_if (value == k) ]

  unfoldable pub places : Sched → ℕ → ℕ
  places s k = count k s.runnable + count_waiting k s.waiting + count_sleeping k s.sleeping

-- No thread stands in two places; the scheduler's own thread and NULL stand in none.
pub record IsSched (sched_ktcb : ℕ) (tid : ℕ → ℕ) (s : Sched) : Type 0 where
  pub table : IsSht s.waiting
  pub keys : (t k : ℕ) → held s.waiting t ≡ some k → tid k ≡ t
  pub sorted : IsSorted s.sleeping
  pub once : (k : ℕ) → places tid s k ≤ 1
  pub no_sched : places tid s sched_ktcb ≡ 0
  pub no_null : places tid s 0 ≡ 0

pub has-count : (k : ℕ) (xs : List ℕ) → count k xs ≡ 0 → has k xs ≡ false
unfolding count
has-count k [] z = refl
has-count k (x ∷ xs) z = let rest = has-count k xs in ground arith

pub take_last-none : (xs : List ℕ) → take_last xs ≡ none → xs ≡ []
unfolding take_last
take_last-none [] e = refl
take_last-none (x ∷ xs) e = elim (Option-cases (take_last xs)) [
  | inl n ↦ ground arith
  | inr (y, f) ↦ ground arith
]

pub count-take_last :
    (k y : ℕ) (xs ys : List ℕ)
    → take_last xs ≡ some (y, ys)
    → count k xs ≡ count k ys + one_if (k == y)
unfolding count take_last
count-take_last k y [] ys e = ground arith
count-take_last k y (x ∷ xs) ys e = elim (Option-cases (take_last xs)) [
  | inl n ↦ let z = take_last-none xs n in ground arith
  | inr ((z, zs), f) ↦ let rest = count-take_last k z xs zs f in ground arith
]

pub count-take_first :
    (k y : ℕ) (test : ℕ → Bool) (xs ys : List ℕ)
    → take_first test xs ≡ some (y, ys)
    → count k xs ≡ count k ys + one_if (k == y)
unfolding count take_first
count-take_first k y test [] ys e = ground arith
count-take_first k y test (x ∷ xs) ys e = elim (Bool-cases (test x)) [
  | inl t ↦ ground arith
  | inr t ↦ elim (Option-cases (take_first test xs)) [
    | inl n ↦ ground arith
    | inr ((z, zs), f) ↦ let rest = count-take_first k z test xs zs f in ground arith
  ]
]

pub count_sleeping-insert :
    (k d t : ℕ) (tq : TimedQueue)
    → count_sleeping k (tq_insert d t tq) ≡ count_sleeping k tq + one_if (k == d)
unfolding count_sleeping tq_insert
count_sleeping-insert k d t [] = ground arith
count_sleeping-insert k d t (n ∷ tq) = let rest = count_sleeping-insert k d t tq in ground arith

pub tq_find-count : (k : ℕ) (tq : TimedQueue) → count_sleeping k tq ≡ 0 → tq_find k tq ≡ pos 0
unfolding count_sleeping tq_find
tq_find-count k [] z = refl
tq_find-count k (n ∷ tq) z = let rest = tq_find-count k tq in ground arith

-- From a queue that holds no NULL tq_get answers NULL and changes nothing, or takes out a node.
pub tq_get-count :
    (now : ℕ) (tq : TimedQueue)
    → count_sleeping 0 tq ≡ 0
    → (tq_get now tq ≡ (0, tq))
      ⊎ (((tq_get now tq).0 ≢ 0)
          × ((k : ℕ)
              → count_sleeping k tq
                ≡ count_sleeping k (tq_get now tq).1 + one_if (k == (tq_get now tq).0)))
unfolding count_sleeping tq_get
tq_get-count now [] z = inl refl
tq_get-count now (n ∷ tq) z = elim (Bool-cases (ltb n.ticks now)) [
  | inl e ↦ rw e (inr (λ q. ground arith, λ k. omega arith))
  | inr e ↦ rw e (inl refl)
]

one_self : (k : ℕ) → one_if (k == k) ≡ 1
one_self k = ground arith

module _ (tid : ℕ → ℕ) where
  pub count_waiting-insert :
      (t t' : Sht) (k j : ℕ)
      → held t (tid j) ≡ none
      → ((key : ℕ) → held t' key ≡ (if key == tid j then some j else held t key))
      → count_waiting tid k t' ≡ count_waiting tid k t + one_if (k == j)
  unfolding count_waiting
  count_waiting-insert t t' k j f h = elim (Bool-cases (tid k == tid j)) [
    | inl e ↦
        let same : held t (tid k) ≡ none = ap (held t) (eq_of_== _ _ e) ∙ f in
        let new : held t' (tid k) ≡ some j = h (tid k) ∙ rw e refl in
        rw (count_waiting, same, new) (ground arith)
    | inr e ↦
        let new : held t' (tid k) ≡ held t (tid k) = h (tid k) ∙ rw e refl in
        let ne : (k == j) ≡ false = ==_of_ne k j (λ q. ne_of_== _ _ e (ap tid q)) in
        rw (count_waiting, new, ne) (omega arith)
  ]

  pub count_waiting-delete :
      (t t' : Sht) (k v key : ℕ)
      → held t key ≡ some v
      → tid v ≡ key
      → ((x : ℕ) → held t' x ≡ (if x == key then none else held t x))
      → count_waiting tid k t ≡ count_waiting tid k t' + one_if (k == v)
  unfolding count_waiting
  count_waiting-delete t t' k v key f at h = elim (Bool-cases (tid k == key)) [
    | inl e ↦
        let same : held t (tid k) ≡ some v = ap (held t) (eq_of_== _ _ e) ∙ f in
        let new : held t' (tid k) ≡ none = h (tid k) ∙ rw e refl in
        rw (count_waiting, same, new) (ground arith)
    | inr e ↦
        let new : held t' (tid k) ≡ held t (tid k) = h (tid k) ∙ rw e refl in
        let ne : (k == v) ≡ false = ==_of_ne k v (λ q. ne_of_== _ _ e (ap tid q ∙ at)) in
        rw (count_waiting, new, ne) (omega arith)
  ]

  pub count_waiting-held : (t : Sht) (k : ℕ) → held t (tid k) ≡ some k → count_waiting tid k t ≡ 1
  unfolding count_waiting
  count_waiting-held t k e = rw (count_waiting, e) (one_self k)

-- No thread in the table is NULL.
pub held-ne-null :
    {sched_ktcb : ℕ} {tid : ℕ → ℕ} {s : Sched} (t v : ℕ)
    → IsSched sched_ktcb tid s
    → held s.waiting t ≡ some v
    → v ≢ 0
held-ne-null {tid = tid} {s = s} t v is f z =
    let f' : held s.waiting t ≡ some 0 = f ∙ ap some z in
    let one = count_waiting-held tid s.waiting 0 (ap (held s.waiting) (is.keys t 0 f') ∙ f') in
    let none_there = is.no_null in unfold places in omega arith
