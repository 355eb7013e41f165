-- ===== src/Pgtable/Walks.antt =====
-- pgtable.c's walks over a range of pages and over a directory's tables that take no references back,
-- and frame_kern_init of kern/frame.c, which maps the kernel's memory.
use unix_kernel.Base.{
  ℕ, zero, suc, ◌+◌, ◌-◌, ◌/◌, ◌%◌, ◌^◌, Bool, true, false, not, ◌||◌, Option, none, some, ℤ, pos,
  minus_one, ◌==◌, ltb, leb, if◌then◌else◌, eq_int,
}
use unix_kernel.Frame.{HtAllocs}
use unix_kernel.Pgtable.{
  Flags, Pte, Vm, null_pte, page_size, is_accessible, store, sfree, get_address, get_pgd_index,
  pgd_alloc, pgd_direct_map, pgd_insert,
}
use unix_kernel.Pgtable.Cleanup.{table_entries, first_user, user_tables}

-- The address of a range's last byte; `size` is the bit pattern of an int.
abbrev pub last_address : (start size : ℕ) → ℕ
last_address start size = (start + size + (2 ^ 32 - 1)) % 2 ^ 32

module _ (ok : HtAllocs) where
  -- `last` is the last address to be mapped; `none` where the fuel is used up. The address wraps, so
  -- that no address is above a `last` in the last page.
  unfoldable pub alloc_pages_from :
      (fuel : ℕ) → Vm → (pgd addr last : ℕ) → (pt_flags frm_flags : Flags) → Option (ℤ × Vm)
  alloc_pages_from zero vm pgd addr last pt_flags frm_flags = none
  alloc_pages_from (suc fuel) vm pgd addr last pt_flags frm_flags =
      let (r, after) = pgd_insert ok vm pgd addr pt_flags frm_flags 0 in
      let rest =
        alloc_pages_from fuel after pgd ((addr + page_size) % 2 ^ 32) last pt_flags frm_flags in
      if leb addr last
      then (if eq_int r (pos 0) then rest else some (minus_one, after))
      else some (pos 0, vm)

  -- One round for each page up to the last address, and one to leave.
  unfoldable pub pgd_alloc_pages :
      Vm → (pgd start_linear_addr size : ℕ) → (pt_flags frm_flags : Flags) → Option (ℤ × Vm)
  pgd_alloc_pages vm pgd start_linear_addr size pt_flags frm_flags =
      let last = last_address start_linear_addr size in
      alloc_pages_from (suc (last / page_size + 1)) vm pgd (get_address start_linear_addr) last
        pt_flags frm_flags

-- Has the table an accessible entry from the index `j` on?
unfoldable pub has_content : (rounds j pt : ℕ) → ((table index : ℕ) → Pte) → Bool
has_content zero j pt mem = false
has_content (suc rounds) j pt mem =
    let rest = has_content rounds (j + 1) pt mem in if is_accessible (mem pt j) then true else rest

-- `limit` is `base + len`; the fuel is one round for each page.
unfoldable pub delete_pts_from : (fuel : ℕ) → Vm → (pgd addr limit : ℕ) → Vm
delete_pts_from zero vm pgd addr limit = vm
delete_pts_from (suc fuel) vm pgd addr limit =
    let i = get_pgd_index addr in
    let pt = vm.mem pgd i in
    let kept = delete_pts_from fuel vm pgd (addr + page_size) limit in
    let left =
      delete_pts_from fuel (sfree pt.address (record vm { mem = store vm.mem pgd i null_pte })) pgd
        (addr + page_size) limit in
    if not (ltb addr limit)
    then vm
    else if not (is_accessible pt)
    then vm
    else if has_content table_entries 0 pt.address vm.mem
    then kept
    else left

-- `len` is taken not to be negative: as for 0, nothing would be done.
unfoldable pub check_and_delete_pt : (user_mem_start : ℕ) → Vm → (pgd base len : ℕ) → Vm
check_and_delete_pt user_mem_start vm pgd base len =
    if pgd == 0
    then vm
    else if ltb base user_mem_start || (len == 0)
    then vm
    else delete_pts_from (len / page_size + 1) vm pgd base (base + len)

unfoldable pub free_tables : (rounds i pgd : ℕ) → Vm → Vm
free_tables zero i pgd vm = vm
free_tables (suc rounds) i pgd vm =
    free_tables rounds (i + 1) pgd
      (if is_accessible (vm.mem pgd i) then sfree (vm.mem pgd i).address vm else vm)

pub pgd_free : Vm → ℕ → Vm
pgd_free vm pgd = sfree pgd (free_tables user_tables first_user pgd vm)

-- The flags of the kernel's pages.
abbrev pub kern_flags : Flags
kern_flags = record { present = true; writable = true; user = false; global = true }

-- When a page cannot be mapped, it is that page which is given to pgd_free.
unfoldable pub map_kernel : (rounds : ℕ) → (user_mem_start kern_pgd addr : ℕ) → Vm → ℕ × Vm
map_kernel zero user_mem_start kern_pgd addr vm = (kern_pgd, vm)
map_kernel (suc rounds) user_mem_start kern_pgd addr vm =
    let (r, after) = pgd_direct_map vm kern_pgd addr kern_flags in
    let rest = map_kernel rounds user_mem_start kern_pgd (addr + page_size) after in
    if not (ltb addr user_mem_start)
    then (kern_pgd, vm)
    else if eq_int r (pos 0)
    then rest
    else (0, pgd_free after addr)

pub frame_kern_init : (user_mem_start : ℕ) → Vm → ℕ × Vm
frame_kern_init user_mem_start vm =
    let (kern_pgd, vm) = pgd_alloc vm in
    if kern_pgd == 0
    then (0, vm)
    else map_kernel (user_mem_start / page_size) user_mem_start kern_pgd page_size vm
