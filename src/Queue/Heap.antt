-- ===== src/Queue/Heap.antt =====
-- The nodes of doubly linked queues at their addresses, and the monad of code that reads and
-- writes them: `struct node` of kern/data_structure/queue.c, `struct st_node` of
-- kern/inc/st_queue.h.
use unix_kernel.Base.{ℕ, Bool, Option, none, some, ◌==◌, if◌then◌else◌}

abbrev pub Ptr : Type 0
Ptr = ℕ

abbrev pub null : Ptr
null = 0

-- The `void *data` is an address too, 0 for NULL.
pub record Node : Type 0 where
  pub payload : ℕ
  pub next : Ptr
  pub prev : Ptr

-- `none` where no node is allocated.
abbrev pub Heap : Type 0
Heap = Ptr → Option Node

unfoldable pub write : Heap → Ptr → Option Node → Heap
write h p c a = if a == p then c else h a

-- `head` and `tail` of `struct queue` and `struct st_queue`.
pub record Ends : Type 0 where
  pub head : Ptr
  pub tail : Ptr

-- `none` is a fault, the use of NULL or of an address with no node, or a loop out of fuel.
abbrev pub M : Type 0 → Type 0
M Val = Heap → Option (Val × Heap)

abbrev pub pure : {Val : Type 0} → Val → M Val
pure v h = some (v, h)

abbrev pub ◌>>=◌ : {Val New : Type 0} → M Val → (Val → M New) → M New
◌>>=◌ m k h = elim (m h) [ none ↦ none | some (v, g) ↦ k v g ]

infixl 5 ◌>>=◌ ◌>>◌
abbrev pub ◌>>◌ : {New : Type 0} → M (Unit {0}) → M New → M New
first >> next = first >>= λ _. next

abbrev pub when : Bool → M (Unit {0}) → M (Unit {0})
when b m = if b then m else pure tt

-- `*p`
unfoldable pub load : Ptr → M Node
load p h = if p == null then none else elim (h p) [ none ↦ none | some e ↦ some (e, h) ]

-- All fields of a node that is there.
unfoldable pub fill : Ptr → Node → M (Unit {0})
fill p e h = elim (load p h) [ none ↦ none | some _ ↦ some (tt, write h p (some e)) ]

unfoldable pub set_next : Ptr → Ptr → M (Unit {0})
set_next p q = do e ← load p; fill p (record e { next = q })

unfoldable pub set_prev : Ptr → Ptr → M (Unit {0})
set_prev p q = do e ← load p; fill p (record e { prev = q })

-- What `calloc` does to the memory at the address that it returns.
unfoldable pub clear_node : Ptr → M (Unit {0})
clear_node p h = some (tt, write h p (some (record { payload = 0; next = 0; prev = 0 })))

unfoldable pub free_node : Ptr → M (Unit {0})
free_node p h = elim (load p h) [ none ↦ none | some _ ↦ some (tt, write h p none) ]
