-- ===== src/Stacks/Tests.antt =====
-- A library with stacks of two pages below a root stack, and two blocks.
use unix_kernel.Base.{
  ℕ, ◌≤◌, ◌<◌, ◌≡◌, ◌≢◌, ◌⊎◌, refl, true, some, List, [], ◌∷◌, arith, ℤ, pos, minus_one, ◌==◌,
  Bool-cases, eq_of_==, inl, inr, if◌then◌else◌,
}
use unix_kernel.Sched.Places.{count}
use unix_kernel.Stacks.{
  Stacks, block_size, current_stack_base, thr_getid, stack_size, child_stack_base, put_back,
  alloc_aligned_pages,
}
use unix_kernel.Stacks.Blocks.{current_stack_base_lem}
use unix_kernel.Stacks.Made.{IsStacks}
use unix_kernel.Stacks.Given.{Gives, AreApart, child_stack_base_lem}
use unix_kernel.Stacks.Grown.{IsGrown, alloc_aligned_pages_lem}

-- The first block's stack is in the queue, a thread has the second one.
abbrev stacks : Stacks
stacks = record {
  root_stack_lo = 0xb0000000;
  lowest_stack_lo = 0xafff8000;
  thr_stack_size = 0x2000;
  exited_thr_queue = 0xafffdffc ∷ [];
  pages_ok = true ∷ [];
  pages = [];
}

current_stack_base_lem_example :
    (current_stack_base stacks 0xafff8123 ≡ 0xafff9ffc)
    × (thr_getid stacks (λ a. if a == 0xafff9ffc then 7 else 0) 0xafff8123 ≡ 7)
current_stack_base_lem_example =
    current_stack_base_lem stacks 1 0xafff9ffc 0xafff8123 (λ a. if a == 0xafff9ffc then 7 else 0)
      refl (omega arith, omega arith)

-- The root thread and one other run.
stacks-IsStacks : IsStacks stacks 0xb0002ffc (0xafff9ffc ∷ 0xb0002ffc ∷ []) 2
unfolding count
stacks-IsStacks = record {
  root = omega arith;
  lowest = refl;
  aligned = refl;
  size_aligned = refl;
  some_size = omega arith;
  blocks = λ b here. elim (Bool-cases (b == 0xafffdffc)) [
    | inl e ↦
        let first = eq_of_== b 0xafffdffc e in
        (omega arith, omega arith, inr (0, omega arith, omega arith))
    | inr e ↦ elim (Bool-cases (b == 0xafff9ffc)) [
      | inl f ↦
          let second = eq_of_== b 0xafff9ffc f in
          (omega arith, omega arith, inr (1, omega arith, omega arith))
      | inr f ↦ let root : b ≡ 0xb0002ffc = ground arith in (omega arith, omega arith, inl root)
    ]
  ];
  once = λ b. ground arith;
}

child_stack_base_lem_example :
    (block_size stacks ≤ stacks.lowest_stack_lo
      → Gives 0xb0002ffc (0xafff9ffc ∷ 0xb0002ffc ∷ []) 2 (child_stack_base stacks))
    × ((b c : ℕ)
        → 0 < count b (0xafff9ffc ∷ 0xb0002ffc ∷ [])
        → 0 < count c (0xafff9ffc ∷ 0xb0002ffc ∷ [])
        → b ≢ c
        → AreApart stacks 0xb0002ffc b c)
    × ((b : ℕ) (rest : List ℕ)
        → ◌≡◌ {A = List ℕ} (0xafff9ffc ∷ 0xb0002ffc ∷ []) (b ∷ rest)
        → IsStacks (put_back stacks b) 0xb0002ffc rest 2)
    × ((b : ℕ)
        → 0 < count b (0xafff9ffc ∷ 0xb0002ffc ∷ [])
        → stacks.exited_thr_queue ≡ []
        → (child_stack_base (put_back stacks b)).0 ≡ b)
child_stack_base_lem_example =
    child_stack_base_lem stacks 0xb0002ffc (0xafff9ffc ∷ 0xb0002ffc ∷ []) 2 stacks-IsStacks

alloc_aligned_pages_lem_example :
    (r : ℤ) × (s' : Stacks) × (alloc_aligned_pages stacks 0xaffff800 ≡ some (r, s'))
    × ((r ≡ minus_one) ⊎ ((r ≡ pos 0) × ((n : ℕ) × IsGrown stacks 0xaffff800 s' n)))
alloc_aligned_pages_lem_example = alloc_aligned_pages_lem stacks 0xaffff800 (omega arith)

stack_size_rounds : stack_size 5000 ≡ 0x2000
unfolding stack_size
stack_size_rounds = refl
