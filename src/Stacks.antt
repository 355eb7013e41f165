-- ===== src/Stacks.antt =====
-- Where the thread library puts stacks: user/libthread/thr_internals.c and the growth of the root
-- thread's stack in user/libautostack/autostack.c. Below the root's stack follow blocks of a page that
-- is not mapped, a page for the exception stack and the thread's own stack. Addresses do not wrap at
-- 2 ^ 32. `pages_ok` says which of the next new_pages calls succeed, none once it has ended, and
-- `pages` logs what they have allocated, the latest first.
pub mod Blocks
pub mod Made
pub mod Given
pub mod Grown
mod Tests
use unix_kernel.Base.{
  ℕ, zero, suc, ◌+◌, ◌-◌, ◌*◌, ◌/◌, ◌%◌, ◌^◌, Bool, true, false, not, Option, none, some, List, [],
  ◌∷◌, ℤ, pos, minus_one, ◌==◌, ltb, leb, if◌then◌else◌,
}
use unix_kernel.Sched.{take_last}

abbrev pub page_size : ℕ
page_size = 2 ^ 12

abbrev pub exn_stack_size : ℕ
exn_stack_size = page_size

abbrev pub fault_size : ℕ
fault_size = page_size

-- The queue of stacks that are not in use is the list of their bases, from its head on.
pub record Stacks : Type 0 where
  pub root_stack_lo : ℕ
  pub lowest_stack_lo : ℕ
  pub thr_stack_size : ℕ
  pub exited_thr_queue : List ℕ
  pub pages_ok : List Bool
  pub pages : List (ℕ × ℕ)

abbrev pub block_size : Stacks → ℕ
block_size s = fault_size + exn_stack_size + s.thr_stack_size

pub current_stack_base : Stacks → (esp : ℕ) → ℕ
current_stack_base s esp =
    let num_blocks = (s.root_stack_lo - fault_size - esp) / block_size s in
    s.root_stack_lo - fault_size - num_blocks * block_size s - exn_stack_size - 4

-- thr_getid's answer; `key` reads an int of user memory.
pub thr_getid : Stacks → (key : ℕ → ℕ) → (esp : ℕ) → ℕ
thr_getid s key esp =
    if leb (s.root_stack_lo - fault_size) esp then 1 else key (current_stack_base s esp)

-- thr_init's size of a stack, of whole pages.
pub stack_size : (size : ℕ) → ℕ
stack_size size = (size + page_size - 1) / page_size * page_size

pub take_answer : List Bool → Bool × List Bool
take_answer [] = (false, [])
take_answer (a ∷ later) = (a, later)

-- The system call new_pages.
pub new_pages : Stacks → (base len : ℕ) → Bool × Stacks
new_pages s base len =
    let (got, later) = take_answer s.pages_ok in
    (got, record s { pages_ok = later; pages = if got then (base, len) ∷ s.pages else s.pages })

-- A new block below the others.
pub alloc_block : Stacks → ℕ × Stacks
alloc_block s =
    let exn_stack_lo = s.lowest_stack_lo - fault_size - exn_stack_size in
    let child_stack_lo = exn_stack_lo - s.thr_stack_size in
    let (exn, s1) = new_pages s exn_stack_lo exn_stack_size in
    let (child, s2) = new_pages s1 child_stack_lo s.thr_stack_size in
    if not exn
    then (0, s1)
    else if not child
    then (0, s2)
    else (child_stack_lo + s.thr_stack_size - 1, record s2 { lowest_stack_lo = child_stack_lo })

pub alloc_child_stack : Stacks → ℕ × Stacks
alloc_child_stack s = elim (take_last s.exited_thr_queue) [
  | none ↦ alloc_block s
  | some (base, left) ↦
      let s1 : Stacks = record s { exited_thr_queue = left } in
      if base == 0 then alloc_block s1 else (base, s1)
]

-- thr_create's stack for the child, 0 when there is none; the last two bits are cleared.
pub child_stack_base : Stacks → ℕ × Stacks
child_stack_base s =
    let (base, s1) = alloc_child_stack s in if base == 0 then (0, s1) else (base - base % 4, s1)

-- thr_exit's enqueue of its own stack.
pub put_back : Stacks → (stack_base : ℕ) → Stacks
put_back s stack_base = record s { exited_thr_queue = stack_base ∷ s.exited_thr_queue }

-- The loop of autostack's alloc_aligned_pages; `none` where the fuel is used up.
pub grow_from : (fuel : ℕ) → Stacks → (addr : ℕ) → Option (ℤ × Stacks)
grow_from zero s addr = none
grow_from (suc fuel) s addr =
    let lower = s.root_stack_lo - page_size in
    let (got, s1) = new_pages (record s { root_stack_lo = lower }) lower page_size in
    let rest = grow_from fuel s1 addr in
    if leb addr s.root_stack_lo
    then (if got then rest else some (minus_one, s1))
    else some (pos 0, s)

-- One round for each page below, and one to leave.
pub alloc_aligned_pages : Stacks → (addr : ℕ) → Option (ℤ × Stacks)
alloc_aligned_pages s addr = grow_from (suc (s.root_stack_lo / page_size + 1)) s addr
