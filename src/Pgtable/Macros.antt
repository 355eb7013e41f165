-- ===== src/Pgtable/Macros.antt =====
-- The indices of a linear address, kern/inc/pgtable.h.
use unix_kernel.Base.{ℕ, ◌+◌, ◌*◌, ◌%◌, ◌^◌, ◌<◌, ◌≡◌, arith}
use unix_kernel.Pgtable.{get_pgd_index, get_pt_index, get_linear_addr, get_address}

-- A 32-bit address and its page: GET_LINEAR_ADDR of the address's indices is the start of its page.
-- An address in the page that GET_LINEAR_ADDR makes of two indices below 2 ^ 10 has those indices.
pub linear_addr-indices :
    (x i j offset : ℕ)
    → x < 2 ^ 32
    → i < 2 ^ 10
    → j < 2 ^ 10
    → offset < 2 ^ 12
    → (get_linear_addr (get_pgd_index x) (get_pt_index x) ≡ get_address x)
      × (get_pgd_index (get_linear_addr i j + offset) ≡ i)
      × (get_pt_index (get_linear_addr i j + offset) ≡ j)
      × (get_address (get_linear_addr i j + offset) ≡ get_linear_addr i j)
      × (get_linear_addr i j + offset < 2 ^ 32)
unfolding get_pgd_index get_pt_index get_linear_addr get_address
linear_addr-indices x i j offset lx li lj lo =
    (omega arith, omega arith, omega arith, omega arith, omega arith)

-- The entries of a table that starts a page lie in that page.
pub table-address : (pt x : ℕ) → pt % 2 ^ 12 ≡ 0 → get_address (pt + 4 * get_pt_index x) ≡ pt
unfolding get_address get_pt_index
table-address pt x aligned = omega arith
