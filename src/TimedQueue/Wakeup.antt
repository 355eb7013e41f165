-- ===== src/TimedQueue/Wakeup.antt =====
-- What tq_get of timed_queue.c hands out.
use unix_kernel.Base.{ℕ, ◌≤◌, ◌≡◌, refl, [], ◌∷◌, arith, ltb, Bool-cases, inl, inr, if◌then◌else◌}
use unix_kernel.TimedQueue.{TimedNode, TimedQueue, tq_get}
use unix_kernel.TimedQueue.Order.{NotBefore, IsSorted}

-- The nodes whose tick has passed.
abbrev pub due : ℕ → TimedQueue → TimedQueue
due now [] = []
due now (n ∷ tq) = if ltb n.ticks now then n ∷ due now tq else due now tq

due-nil : (now t : ℕ) (tq : TimedQueue) → now ≤ t → NotBefore t tq → due now tq ≡ []
due-nil now t [] le h = refl
due-nil now t (n ∷ tq) le (a, b) = elim (Bool-cases (ltb n.ticks now)) [
  | inl e ↦ ground arith
  | inr e ↦ rw e (due-nil now t tq le b)
]

-- From a sorted queue tq_get takes the first of the nodes whose tick has passed and leaves the
-- rest, in order; when no node's tick has passed it answers NULL and changes nothing.
pub tq_get_lem :
    (now : ℕ) (tq : TimedQueue)
    → IsSorted tq
    → (due now tq ≡ [] → tq_get now tq ≡ (0, tq))
      × ((n : TimedNode) (later : TimedQueue)
          → due now tq ≡ n ∷ later
          → (rest : TimedQueue) × (tq ≡ n ∷ rest)
            × (tq_get now tq ≡ (n.payload, rest))
            × (due now rest ≡ later)
            × IsSorted rest)
unfolding tq_get
tq_get_lem now [] h = (λ _. refl, λ n later e. ground arith)
tq_get_lem now (m ∷ tq) (a, b) = elim (Bool-cases (ltb m.ticks now)) [
  | inl e ↦ (λ z. ground arith, λ n later z. (tq, ground arith, ground arith, ground arith, b))
  | inr e ↦ (
    λ z. rw e refl,
    λ n later z. let none_due = due-nil now m.ticks tq (ground arith) a in ground arith,
  )
]

pub tq_get-IsSorted : (now : ℕ) (tq : TimedQueue) → IsSorted tq → IsSorted (tq_get now tq).1
unfolding tq_get
tq_get-IsSorted now [] h = tt
tq_get-IsSorted now (n ∷ tq) (a, b) = elim (Bool-cases (ltb n.ticks now)) [
  | inl e ↦ rw e b
  | inr e ↦ rw e (a, b)
]
