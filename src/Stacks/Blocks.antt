-- ===== src/Stacks/Blocks.antt =====
-- current_stack_base of thr_internals.c finds a thread's stack from any address in it.
use unix_kernel.Base.{ℕ, ◌+◌, ◌-◌, ◌*◌, ◌/◌, ◌≤◌, ◌<◌, ◌≡◌, ap, false, arith, leb}
use native.Mathlib.Nat.{add-mul, div-eq_of_lt-le}
use unix_kernel.Stacks.{
  Stacks, fault_size, exn_stack_size, block_size, current_stack_base, thr_getid,
}

-- `base` is the last word of the `i`th block's stack.
abbrev pub IsBase : Stacks → (i base : ℕ) → Type 0
IsBase s i base = base + 4 + exn_stack_size + fault_size + i * block_size s ≡ s.root_stack_lo

-- Addresses in the thread's stack, or in the exception stack above it.
abbrev pub InBlock : Stacks → (base esp : ℕ) → Type 0
InBlock s base esp = (base + 4 ≤ esp + s.thr_stack_size) × (esp < base + 4 + exn_stack_size)

-- From any address in the stack or the exception stack of a block, current_stack_base answers the
-- block's base, and thr_getid the key that stands there.
pub current_stack_base_lem :
    (s : Stacks) (i base esp : ℕ) (key : ℕ → ℕ)
    → IsBase s i base
    → InBlock s base esp
    → (current_stack_base s esp ≡ base) × (thr_getid s key esp ≡ key base)
unfolding current_stack_base thr_getid
current_stack_base_lem s i base esp key at (low, high) =
    let blocks : (s.root_stack_lo - fault_size - esp) / block_size s ≡ i =
      div-eq_of_lt-le {k = i} (block_size s) (omega arith)
        (omega (arith, add-mul i 1 (block_size s))) in
    let found : current_stack_base s esp ≡ base = rw (current_stack_base, blocks) (omega arith) in
    let below : leb (s.root_stack_lo - fault_size) esp ≡ false = ground arith in
    (found, rw (thr_getid, below) (ap key found))
