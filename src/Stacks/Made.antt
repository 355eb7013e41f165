-- ===== src/Stacks/Made.antt =====
-- What stays true of the stacks that thr_internals.c makes, gives out and takes back.
use unix_kernel.Base.{
  ℕ, zero, suc, ◌+◌, ◌-◌, ◌*◌, ◌%◌, ◌≤◌, ◌<◌, ◌≡◌, ◌≢◌, refl, ap, ◌⊎◌, inl, inr, Bool-cases, some,
  List, ◌∷◌, arith, ◌==◌, eq_of_==,
}
use native.Mathlib.Nat.{suc-mul, mul-le-mul_right}
use unix_kernel.Sched.{take_last}
use unix_kernel.Sched.Places.{count, count-take_last}
use unix_kernel.Stacks.{
  Stacks, page_size, fault_size, exn_stack_size, block_size, new_pages, alloc_block, take_answer,
  put_back,
}
use unix_kernel.Stacks.Blocks.{IsBase}

-- The stack with the base `b` is the root thread's, whose base is `hi`, or in one of the `k` blocks.
abbrev pub IsStack : Stacks → (hi k b : ℕ) → Type 0
IsStack s hi k b = (b ≢ 0) × (b % 4 ≡ 0) × ((b ≡ hi) ⊎ ((i : ℕ) × (i < k) × IsBase s i b))

-- `used` are the bases of the stacks that threads run on, the root thread's included, and `k` blocks
-- have been made. No stack is twice among these and those in the queue.
pub record IsStacks (s : Stacks) (hi : ℕ) (used : List ℕ) (k : ℕ) : Type 0 where
  pub root : s.root_stack_lo ≤ hi
  pub lowest : s.lowest_stack_lo + k * block_size s ≡ s.root_stack_lo
  pub aligned : s.lowest_stack_lo % 4 ≡ 0
  pub size_aligned : s.thr_stack_size % 4 ≡ 0
  pub some_size : page_size ≤ s.thr_stack_size
  pub blocks : (b : ℕ) → 0 < count b s.exited_thr_queue + count b used → IsStack s hi k b
  pub once : (b : ℕ) → count b s.exited_thr_queue + count b used ≤ 1

-- A new block, or none.
abbrev NewBlock : Stacks → (k : ℕ) → ℕ × Stacks → Type 0
NewBlock s k (top, s') =
    (s'.root_stack_lo ≡ s.root_stack_lo)
    × (s'.thr_stack_size ≡ s.thr_stack_size)
    × (s'.exited_thr_queue ≡ s.exited_thr_queue)
    × (((top ≡ 0) × (s'.lowest_stack_lo ≡ s.lowest_stack_lo))
        ⊎ ((s'.lowest_stack_lo + block_size s ≡ s.lowest_stack_lo)
            × (top + 1 ≡ s'.lowest_stack_lo + s.thr_stack_size)))

pub alloc_block-NewBlock :
    (s : Stacks) (k : ℕ)
    → block_size s ≤ s.lowest_stack_lo
    → page_size ≤ s.thr_stack_size
    → NewBlock s k (alloc_block s)
unfolding alloc_block new_pages
alloc_block-NewBlock s k room some_size = elim (Bool-cases (take_answer s.pages_ok).0) [
  | inr e ↦ rw e (refl, refl, refl, inl (refl, refl))
  | inl e ↦ elim (Bool-cases (take_answer (take_answer s.pages_ok).1).0) [
    | inr f ↦ rw (e, f) (refl, refl, refl, inl (refl, refl))
    | inl f ↦ rw (e, f) (refl, refl, refl, inr (omega arith, omega arith))
  ]
]

zero-cases : (n : ℕ) → (n ≡ 0) ⊎ (0 < n)
zero-cases zero = inl refl
zero-cases (suc n) = inr (omega arith)

-- Blocks with different numbers lie apart.
pub IsBase-apart :
    (s : Stacks) (i k b c : ℕ) → i < k → IsBase s i b → IsBase s k c → c + block_size s ≤ b
IsBase-apart s i k b c less at at' =
    omega
      (arith, suc-mul i (block_size s), mul-le-mul_right {m = suc i} {n = k} (block_size s) less)

pub IsBase-same :
    (s s' : Stacks) (i b : ℕ)
    → s'.root_stack_lo ≡ s.root_stack_lo
    → s'.thr_stack_size ≡ s.thr_stack_size
    → IsBase s i b
    → IsBase s' i b
IsBase-same s s' i b root size at =
    omega (arith, ap (λ (z : ℕ). i * (fault_size + exn_stack_size + z)) size)

pub IsStack-same :
    (s s' : Stacks) (hi k k' b : ℕ)
    → s'.root_stack_lo ≡ s.root_stack_lo
    → s'.thr_stack_size ≡ s.thr_stack_size
    → k ≤ k'
    → IsStack s hi k b
    → IsStack s' hi k' b
IsStack-same s s' hi k k' b root size more (ne, word, kind) = (
  ne,
  word,
  elim kind [
    | inl is_root ↦ inl is_root
    | inr (i, less, at) ↦ inr (i, omega arith, IsBase-same s s' i b root size at)
  ],
)

-- A block that has been made stands below all others.
pub made-IsStacks :
    (s s' : Stacks) (hi : ℕ) (used : List ℕ) (k top : ℕ)
    → IsStacks s hi used k
    → s'.root_stack_lo ≡ s.root_stack_lo
    → s'.thr_stack_size ≡ s.thr_stack_size
    → s'.exited_thr_queue ≡ s.exited_thr_queue
    → s'.lowest_stack_lo + block_size s ≡ s.lowest_stack_lo
    → top + 1 ≡ s'.lowest_stack_lo + s.thr_stack_size
    → (top - top % 4 ≢ 0)
      × (count (top - top % 4) used ≡ 0)
      × IsStacks s' hi ((top - top % 4) ∷ used) (suc k)
unfolding count
made-IsStacks s s' hi used k top v root size queue lower at =
    let b = top - top % 4 in
    let below = v.lowest in
    let aligned = v.aligned in
    let size_aligned = v.size_aligned in
    let some_size = v.some_size in
    let bytes : b + 4 ≡ s'.lowest_stack_lo + s.thr_stack_size = omega arith in
    let base : IsBase s k b = omega arith in
    let fresh : count b s.exited_thr_queue + count b used ≡ 0 =
      elim (zero-cases (count b s.exited_thr_queue + count b used)) [
        | inl z ↦ z
        | inr here ↦
            let (_, _, kind) = v.blocks b here in
            let above = v.root in
            elim kind [
              | inl is_root ↦ absurd (omega arith)
              | inr (i, less, at_i) ↦ absurd (omega (arith, IsBase-apart s i k b b less at_i base))
            ]
      ] in
    let same = λ (j : ℕ). ap (count j) queue in
    (
      omega arith,
      omega arith,
      record {
        root = rw root v.root;
        lowest = omega (
          arith,
          suc-mul k (block_size s),
          ap (λ (z : ℕ). k * (fault_size + exn_stack_size + z)) size,
        );
        aligned = omega arith;
        size_aligned = rw size size_aligned;
        some_size = omega arith;
        blocks = λ j here. elim (Bool-cases (j == b)) [
          | inl e ↦
              let is_b = eq_of_== j b e in
              (
                omega arith,
                omega arith,
                inr (k, omega arith, IsBase-same s s' k j root size (omega arith)),
              )
          | inr e ↦
              IsStack-same s s' hi k (suc k) j root size (omega arith)
                (v.blocks j (ground (arith, same j)))
        ];
        once = λ j. elim (Bool-cases (j == b)) [
          | inl e ↦
              let alike = ap (λ (z : ℕ). count z used) (eq_of_== j b e) in
              let alike' = ap (λ (z : ℕ). count z s.exited_thr_queue) (eq_of_== j b e) in
              ground (arith, same j)
          | inr e ↦ ground (arith, same j, v.once j)
        ];
      },
    )

-- A stack that nobody uses any more is given out again.
pub again-IsStacks :
    (s : Stacks) (hi : ℕ) (used : List ℕ) (k b : ℕ) (left : List ℕ)
    → IsStacks s hi used k
    → take_last s.exited_thr_queue ≡ some (b, left)
    → (b ≢ 0)
      × (b % 4 ≡ 0)
      × (count b used ≡ 0)
      × IsStacks (record s { exited_thr_queue = left }) hi (b ∷ used) k
unfolding count
again-IsStacks s hi used k b left v e =
    let split = λ (j : ℕ). count-take_last j b s.exited_thr_queue left e in
    let (ne, aligned, _) = v.blocks b (ground (arith, split b)) in
    (
      ne,
      aligned,
      ground (arith, split b, v.once b),
      record {
        root = v.root;
        lowest = v.lowest;
        aligned = v.aligned;
        size_aligned = v.size_aligned;
        some_size = v.some_size;
        blocks = λ j here. v.blocks j (ground (arith, split j));
        once = λ j. ground (arith, split j, v.once j);
      },
    )

pub put_back-IsStacks :
    (s : Stacks) (hi : ℕ) (used : List ℕ) (k b : ℕ)
    → IsStacks s hi (b ∷ used) k
    → IsStacks (put_back s b) hi used k
unfolding count put_back
put_back-IsStacks s hi used k b v = record {
  root = v.root;
  lowest = v.lowest;
  aligned = v.aligned;
  size_aligned = v.size_aligned;
  some_size = v.some_size;
  blocks = λ j here. v.blocks j (ground arith);
  once = λ j. ground (arith, v.once j);
}
