-- ===== src/TimedQueue/Order.antt =====
-- Where tq_insert, tq_delete and tq_find of timed_queue.c work in a queue that is ordered by ticks.
use unix_kernel.Base.{
  ℕ, ◌+◌, ◌≤◌, ◌≡◌, refl, ap, subst, [], ◌∷◌, ◌++◌, arith, pos, ltb, ◌==◌, Bool-cases, inl, inr,
  ◌⊎◌, ◌≢◌,
}
use unix_kernel.TimedQueue.{TimedNode, TimedQueue, tq_insert, tq_find, tq_delete}

-- All nodes are due at `t` or later.
abbrev pub NotBefore : ℕ → TimedQueue → Type 0
NotBefore t [] = Unit
NotBefore t (n ∷ tq) = (t ≤ n.ticks) × NotBefore t tq

abbrev pub NotAfter : ℕ → TimedQueue → Type 0
NotAfter t [] = Unit
NotAfter t (n ∷ tq) = (n.ticks ≤ t) × NotAfter t tq

abbrev pub IsSorted : TimedQueue → Type 0
IsSorted [] = Unit
IsSorted (n ∷ tq) = NotBefore n.ticks tq × IsSorted tq

-- No node has this data.
abbrev pub Lacks : ℕ → TimedQueue → Type 0
Lacks d [] = Unit
Lacks d (n ∷ tq) = (d ≢ n.payload) × Lacks d tq

pub NotBefore-trans : (s t : ℕ) (tq : TimedQueue) → s ≤ t → NotBefore t tq → NotBefore s tq
NotBefore-trans s t [] le h = tt
NotBefore-trans s t (n ∷ tq) le (a, b) = (omega arith, NotBefore-trans s t tq le b)

NotBefore-insert :
    (s d t : ℕ) (tq : TimedQueue) → s ≤ t → NotBefore s tq → NotBefore s (tq_insert d t tq)
unfolding tq_insert
NotBefore-insert s d t [] le h = (le, tt)
NotBefore-insert s d t (n ∷ tq) le (a, b) = elim (Bool-cases (ltb t n.ticks)) [
  | inl e ↦ rw e (le, (a, b))
  | inr e ↦ rw e (a, NotBefore-insert s d t tq le b)
]

pub IsSorted-insert : (d t : ℕ) (tq : TimedQueue) → IsSorted tq → IsSorted (tq_insert d t tq)
unfolding tq_insert
IsSorted-insert d t [] h = (tt, tt)
IsSorted-insert d t (n ∷ tq) (a, b) = elim (Bool-cases (ltb t n.ticks)) [
  | inl e ↦ rw e ((ground arith, NotBefore-trans t n.ticks tq (ground arith) a), (a, b))
  | inr e ↦ rw e (NotBefore-insert n.ticks d t tq (ground arith) a, IsSorted-insert d t tq b)
]

-- In a sorted queue tq_insert keeps the order: the new node stands after all nodes that are due no
-- later, so after those of the same tick, and before all nodes that are due later.
pub tq_insert_lem :
    (d t : ℕ) (tq : TimedQueue)
    → IsSorted tq
    → IsSorted (tq_insert d t tq)
      × (before after : TimedQueue) × (tq ≡ before ++ after)
      × (tq_insert d t tq ≡ before ++ record { ticks = t; payload = d } ∷ after)
      × NotAfter t before
      × NotBefore (t + 1) after
unfolding tq_insert
tq_insert_lem d t tq h =
    let (before, after, s, i, p, q) = place d t tq h in
    (IsSorted-insert d t tq h, before, after, s, i, p, q)
  where
    place :
        (d t : ℕ) (tq : TimedQueue)
        → IsSorted tq
        → (before after : TimedQueue) × (tq ≡ before ++ after)
          × (tq_insert d t tq ≡ before ++ record { ticks = t; payload = d } ∷ after)
          × NotAfter t before
          × NotBefore (t + 1) after
    place d t [] h = ([], [], refl, refl, tt, tt)
    place d t (n ∷ tq) (a, b) = elim (Bool-cases (ltb t n.ticks)) [
      | inl e ↦ (
        [],
        n ∷ tq,
        refl,
        rw e refl,
        tt,
        (ground arith, NotBefore-trans (t + 1) n.ticks tq (ground arith) a),
      )
      | inr e ↦
          let (before, after, s, i, p, q) = place d t tq b in
          (n ∷ before, after, ap (◌∷◌ n) s, rw e (ap (◌∷◌ n) i), (ground arith, p), q)
    ]

NotBefore-append :
    (s : ℕ) (xs : TimedQueue) (n : TimedNode) (ys : TimedQueue)
    → NotBefore s (xs ++ n ∷ ys)
    → NotBefore s (xs ++ ys)
NotBefore-append s [] n ys (a, b) = b
NotBefore-append s (x ∷ xs) n ys (a, b) = (a, NotBefore-append s xs n ys b)

IsSorted-without :
    (xs : TimedQueue) (n : TimedNode) (ys : TimedQueue)
    → IsSorted (xs ++ n ∷ ys)
    → IsSorted (xs ++ ys)
IsSorted-without [] n ys (a, b) = b
IsSorted-without (x ∷ xs) n ys (a, b) =
    (NotBefore-append x.ticks xs n ys a, IsSorted-without xs n ys b)

-- In a sorted queue tq_find and tq_delete agree. Either no node has the data: tq_find answers 0,
-- and tq_delete answers 0 and changes nothing. Or tq_find answers 1, and tq_delete takes out the
-- first node with the data, answers its ticks and leaves the other nodes in order.
pub tq_delete_lem :
    (d : ℕ) (tq : TimedQueue)
    → IsSorted tq
    → (Lacks d tq × (tq_find d tq ≡ pos 0) × (tq_delete d tq ≡ (0, tq)))
      ⊎ ((before : TimedQueue) × (n : TimedNode) × (after : TimedQueue) × (tq ≡ before ++ n ∷ after)
          × Lacks d before
          × (n.payload ≡ d)
          × (tq_find d tq ≡ pos 1)
          × (tq_delete d tq ≡ (n.ticks, before ++ after))
          × IsSorted (before ++ after))
unfolding tq_find tq_delete
tq_delete_lem d [] h = inl (tt, refl, refl)
tq_delete_lem d (n ∷ tq) (a, b) = elim (Bool-cases (d == n.payload)) [
  | inl e ↦ inr ([], n, tq, refl, tt, ground arith, rw e refl, rw e refl, b)
  | inr e ↦ elim (tq_delete_lem d tq b) [
    | inl (l, f, x) ↦ inl ((ground arith, l), rw e f, rw (e, x) refl)
    | inr (before, m, after, s, l, p, f, x, o) ↦ inr (
      n ∷ before,
      m,
      after,
      ap (◌∷◌ n) s,
      (ground arith, l),
      p,
      rw e f,
      rw (e, x) refl,
      (NotBefore-append n.ticks before m after (subst (NotBefore n.ticks) s a), o),
    )
  ]
]
