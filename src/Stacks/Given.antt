-- ===== src/Stacks/Given.antt =====
-- Which stacks thr_internals.c gives out, and when two threads get the same one.
use unix_kernel.Base.{
  ℕ, suc, ◌+◌, ◌-◌, ◌*◌, ◌%◌, ◌≤◌, ◌<◌, ◌≡◌, ◌≢◌, refl, ap, subst, ◌⊎◌, inl, inr, Bool-cases,
  Option-cases, none, some, List, [], ◌∷◌, ◌∙◌, arith, ◌==◌, ==_of_ne, ltb, lt_of_ltb, tests,
  if◌then◌else◌,
}
use unix_kernel.Sched.{take_last}
use unix_kernel.Sched.Places.{count}
use unix_kernel.Stacks.{
  Stacks, fault_size, exn_stack_size, block_size, alloc_block, alloc_child_stack, child_stack_base,
  put_back,
}
use unix_kernel.Stacks.Blocks.{IsBase}
use unix_kernel.Stacks.Made.{
  IsStacks, IsStack-same, alloc_block-NewBlock, IsBase-apart, made-IsStacks, again-IsStacks,
  put_back-IsStacks,
}

child-again :
    (s : Stacks) (b : ℕ) (left : List ℕ)
    → take_last s.exited_thr_queue ≡ some (b, left)
    → b ≢ 0
    → b % 4 ≡ 0
    → child_stack_base s ≡ (b, record s { exited_thr_queue = left })
unfolding child_stack_base alloc_child_stack
child-again s b left e ne word =
    let there = ==_of_ne b 0 ne in
    rw (child_stack_base, alloc_child_stack, e, there)
      (rw there (ap (λ (z : ℕ). (z, record s { exited_thr_queue = left })) (omega arith)))

child-new :
    (s : Stacks)
    → take_last s.exited_thr_queue ≡ none
    → child_stack_base s ≡ (
        if (alloc_block s).0 == 0
        then (0, (alloc_block s).1)
        else ((alloc_block s).0 - (alloc_block s).0 % 4, (alloc_block s).1))
unfolding child_stack_base alloc_child_stack
child-new s e = rw (child_stack_base, alloc_child_stack, e) refl

-- No stack, or one that no thread uses.
abbrev pub Gives : (hi : ℕ) (used : List ℕ) (k : ℕ) → ℕ × Stacks → Type 0
Gives hi used k (b, s) =
    ((b ≡ 0) × IsStacks s hi used k)
    ⊎ ((b ≢ 0) × (count b used ≡ 0) × ((k' : ℕ) × IsStacks s hi (b ∷ used) k'))

unmade-IsStacks :
    (s s' : Stacks) (hi : ℕ) (used : List ℕ) (k : ℕ)
    → IsStacks s hi used k
    → s'.root_stack_lo ≡ s.root_stack_lo
    → s'.thr_stack_size ≡ s.thr_stack_size
    → s'.exited_thr_queue ≡ s.exited_thr_queue
    → s'.lowest_stack_lo ≡ s.lowest_stack_lo
    → IsStacks s' hi used k
unmade-IsStacks s s' hi used k v root size queue lowest = record {
  root = rw root v.root;
  lowest =
      let old = v.lowest in
      omega (arith, ap (λ (z : ℕ). k * (fault_size + exn_stack_size + z)) size);
  aligned = rw lowest v.aligned;
  size_aligned = rw size v.size_aligned;
  some_size = rw size v.some_size;
  blocks = λ j here.
      IsStack-same s s' hi k k j root size (omega arith)
        (v.blocks j (subst (λ (q : List ℕ). 0 < count j q + count j used) queue here));
  once = λ j. rw queue (v.once j);
}

child-Gives :
    (s : Stacks) (hi : ℕ) (used : List ℕ) (k : ℕ)
    → IsStacks s hi used k
    → block_size s ≤ s.lowest_stack_lo
    → Gives hi used k (child_stack_base s)
child-Gives s hi used k v room = elim (Option-cases (take_last s.exited_thr_queue)) [
  | inr ((b, left), e) ↦
      let (ne, word, fresh, well) = again-IsStacks s hi used k b left v e in
      rw (child-again s b left e ne word) (inr (ne, fresh, (k, well)))
  | inl e ↦
      let (root, size, queue, block) = alloc_block-NewBlock s k room v.some_size in
      elim block [
        | inl (no_block, lowest) ↦
            rw (child-new s e, no_block)
              (inl (refl, unmade-IsStacks s (alloc_block s).1 hi used k v root size queue lowest))
        | inr (lower, top) ↦
            let some_size = v.some_size in
            let there : (alloc_block s).0 ≢ 0 = omega arith in
            let (ne, fresh, well) =
              made-IsStacks s (alloc_block s).1 hi used k (alloc_block s).0 v root size queue lower
                top in
            rw (child-new s e, ==_of_ne _ 0 there) (inr (ne, fresh, (suc k, well)))
      ]
]

-- Two stacks lie at least a block apart, or one is the root thread's and the other ends, with its
-- exception stack and the page that is not mapped, below it.
abbrev pub AreApart : Stacks → (hi b c : ℕ) → Type 0
AreApart s hi b c =
    (b + block_size s ≤ c)
    ⊎ (c + block_size s ≤ b)
    ⊎ ((b ≡ hi) × (c + 4 + exn_stack_size + fault_size ≤ s.root_stack_lo))
    ⊎ ((c ≡ hi) × (b + 4 + exn_stack_size + fault_size ≤ s.root_stack_lo))

blocks-apart :
    (s : Stacks) (hi i j b c : ℕ) → IsBase s i b → IsBase s j c → b ≢ c → AreApart s hi b c
blocks-apart s hi i j b c at_i at_j ne = elim (Bool-cases (ltb i j)) [
  | inl less ↦ inr (inl (IsBase-apart s i j b c (lt_of_ltb i j less) at_i at_j))
  | inr at_most ↦ elim (Bool-cases (ltb j i)) [
    | inl less ↦ inl (IsBase-apart s j i c b (lt_of_ltb j i less) at_j at_i)
    | inr at_least ↦
        let same : i ≡ j = omega tests in
        absurd (ne (omega (arith, ap (λ (z : ℕ). z * block_size s) same)))
  ]
]

used-apart :
    (s : Stacks) (hi : ℕ) (used : List ℕ) (k b c : ℕ)
    → IsStacks s hi used k
    → 0 < count b used
    → 0 < count c used
    → b ≢ c
    → AreApart s hi b c
used-apart s hi used k b c v in_b in_c ne =
    let (_, _, kind_b) = v.blocks b (omega arith) in
    let (_, _, kind_c) = v.blocks c (omega arith) in
    elim kind_b [
      | inl root_b ↦ elim kind_c [
        | inl root_c ↦ absurd (ne (omega arith))
        | inr (j, _, at_j) ↦ inr (inr (inl (root_b, omega arith)))
      ]
      | inr (i, _, at_i) ↦ elim kind_c [
        | inl root_c ↦ inr (inr (inr (root_c, omega arith)))
        | inr (j, _, at_j) ↦ blocks-apart s hi i j b c at_i at_j ne
      ]
    ]

-- A stack that stands alone in the queue is given out, whether or not its thread has vanished.
too_early :
    (s : Stacks) (hi : ℕ) (used : List ℕ) (k b : ℕ)
    → IsStacks s hi used k
    → 0 < count b used
    → s.exited_thr_queue ≡ []
    → (child_stack_base (put_back s b)).0 ≡ b
unfolding put_back
too_early s hi used k b v here e =
    let (ne, word, _) = v.blocks b (omega arith) in
    let last : take_last (b ∷ s.exited_thr_queue) ≡ some (b, []) =
      ap (λ (q : List ℕ). take_last (b ∷ q)) e ∙ unfold take_last in refl in
    ap (λ (r : ℕ × Stacks). r.0) (child-again (put_back s b) b [] last ne word)

-- Where no stack is twice among those that threads run on, the root thread's included, and those in
-- the queue, all with bases that are words, and a stack has at least a page: if another block fits above address 0, thr_create gets no stack, and this still holds, or
-- it gets one that no thread runs on, and this holds with that stack in use. Any two different stacks
-- that threads run on lie apart. When thr_exit puts its stack back, this holds once its thread
-- has vanished, so that it no longer runs on the stack. Before that, with no other stack in the
-- queue, thr_create gives out the very stack that the exiting thread still runs on.
pub child_stack_base_lem :
    (s : Stacks) (hi : ℕ) (used : List ℕ) (k : ℕ)
    → IsStacks s hi used k
    → (block_size s ≤ s.lowest_stack_lo → Gives hi used k (child_stack_base s))
      × ((b c : ℕ) → 0 < count b used → 0 < count c used → b ≢ c → AreApart s hi b c)
      × ((b : ℕ) (rest : List ℕ) → used ≡ b ∷ rest → IsStacks (put_back s b) hi rest k)
      × ((b : ℕ)
          → 0 < count b used
          → s.exited_thr_queue ≡ []
          → (child_stack_base (put_back s b)).0 ≡ b)
child_stack_base_lem s hi used k v = (
  child-Gives s hi used k v,
  λ b c. used-apart s hi used k b c v,
  λ b rest e. put_back-IsStacks s hi rest k b (subst (λ (u : List ℕ). IsStacks s hi u k) e v),
  λ b. too_early s hi used k b v,
)
