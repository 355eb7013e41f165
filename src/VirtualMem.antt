-- ===== src/VirtualMem.antt =====
-- kern/vm/vm.c: copies of the address space, copy on write, and the checks of user memory. It works on
-- the directories of Pgtable. LAST_PAGE_ADDR and USER_MEM_START, constants of the kernel's headers and
-- its environment, are arguments. The contents of the frames are not modelled, so that memcpy of a
-- page leaves no trace, and neither does the load of cr3. Booleans stand for the int results 1 and 0
-- of a `make_ro` or `make_writable`.
pub mod Check
pub mod Copy
pub mod Moved
mod Tests
use unix_kernel.Base.{
  ℕ, zero, suc, ◌+◌, ◌*◌, ◌/◌, ◌≤◌, Bool, true, false, not, ◌&&◌, ◌||◌, Option, none, some, ℤ, pos,
  negsuc, minus_one, ◌==◌, ltb, leb, if◌then◌else◌, eq_int, lt_int, int_inc, int_dec,
}
use unix_kernel.Frame.{HtAllocs, get_frame_refs, set_frame_refs}
use unix_kernel.Pgtable.{
  Flags, Pte, Vm, null_pte, page_size, is_null, is_accessible, store, get_pgd_index, get_pt_index,
  get_linear_addr, get_address, pgd_check_valid, check_and_alloc_pt, pgd_insert, pt_entry_delete,
  pgd_get_frm,
}
use unix_kernel.Pgtable.Cleanup.{table_entries, first_user, user_tables}
use unix_kernel.Pgtable.Walks.{free_tables}

-- The fields of `pcb_t` that the checks read.
pub record Regions : Type 0 where
  pub txt_base : ℕ
  pub txt_len : ℕ
  pub rodat_base : ℕ
  pub rodat_len : ℕ

-- A flag word other than 0.
abbrev pub any_flag : Flags → Bool
any_flag f = f.present || f.writable || f.user || f.global

abbrev pub pg_present : ℕ
pg_present = 1

abbrev pub pg_user : ℕ
pg_user = 4

-- Is the address in the text or the read-only data?
abbrev pub is_read_only : Regions → ℕ → Bool
is_read_only pcb x =
    (leb pcb.txt_base x && ltb x (pcb.txt_base + pcb.txt_len))
    || (leb pcb.rodat_base x && ltb x (pcb.rodat_base + pcb.rodat_len))

-- `frm` and its flags are those of the entry's own address, as in the source; `frm_flags` is taken to
-- be nothing else than a word that is 0 or not.
pub vm_mem_check : Regions → Vm → (pgd linear_addr : ℕ) → ℤ
vm_mem_check pcb vm pgd linear_addr =
    if pgd == 0
    then minus_one
    else (let pt = vm.mem pgd (get_pgd_index linear_addr) in
        let pt_addr = pt.address + 4 * get_pt_index linear_addr in
        let frm = get_address pt_addr in
        let frm_flags = not (pt_addr == frm) in
        if (pt.address == 0)
          || (any_flag pt.flags && (pg_present == 0))
          || (any_flag pt.flags && (pg_user == 0))
        then minus_one
        else if (frm == 0)
            || (frm_flags && (pg_present == 0))
            || (any_flag pt.flags && (pg_user == 0))
        then minus_one
        else if is_read_only pcb linear_addr
        then pos 0
        else pos 1)

-- `MIN(x, y)`
abbrev pub min_int : ℤ → ℤ → ℤ
min_int x y = if lt_int x y then x else y

-- `limit` is `start_addr + len`; the fuel is one round for each page.
unfoldable pub region_check_from :
    (fuel : ℕ) → Regions → Vm → (pgd addr limit : ℕ) → (writable : ℤ) → ℤ
region_check_from zero pcb vm pgd addr limit writable = writable
region_check_from (suc fuel) pcb vm pgd addr limit writable =
    let now = min_int writable (vm_mem_check pcb vm pgd addr) in
    let rest = region_check_from fuel pcb vm pgd (addr + page_size) limit now in
    if not (ltb addr limit) then writable else if lt_int now (pos 0) then minus_one else rest

-- `len` is taken not to be negative: as for 0, nothing would be checked.
unfoldable pub vm_mem_region_check : Regions → Vm → (pgd start_addr len : ℕ) → ℤ
vm_mem_region_check pcb vm pgd start_addr len =
    region_check_from (suc (len / page_size)) pcb vm pgd start_addr (start_addr + len) (pos 1)

-- The flags of the frame in the copy.
abbrev pub copied_flags : (make_ro : Bool) → Flags → Flags
copied_flags make_ro f = if make_ro then record f { writable = false } else f

-- A writable flag that is asked for.
abbrev pub made_writable : (make_writable : Bool) → Flags → Flags
made_writable make_writable f = if make_writable then record f { writable = true } else f

module _ (ok : HtAllocs) where
  -- One more reference to the frame; a count that is not there is taken for 0.
  pub add_ref : Vm → (frm : ℕ) → Vm
  add_ref vm frm =
      let refs = get_frame_refs vm.frames frm in
      let ref_count = if lt_int refs (pos 0) then pos 0 else refs in
      record vm { frames = (set_frame_refs ok vm.frames frm (int_inc ref_count)).1 }

  -- The entry of one page, put into the new directory.
  pub copy_pte :
      (make_ro : Bool) → (pgd new_pgd pgd_index pt_index : ℕ) → (pt_flags : Flags) → Pte → Vm → Vm
  copy_pte make_ro pgd new_pgd pgd_index pt_index pt_flags e vm =
      if not (is_accessible e)
      then vm
      else (let frm_flags = copied_flags make_ro e.flags in
          let x = get_linear_addr pgd_index pt_index in
          let copied = (pgd_insert ok vm new_pgd x pt_flags frm_flags e.address).1 in
          let shared =
            if make_ro
            then (pgd_insert ok copied pgd x pt_flags frm_flags e.address).1
            else copied in
          add_ref shared e.address)

  unfoldable pub copy_table :
      (rounds : ℕ)
      → (make_ro : Bool) → (pgd new_pgd pgd_index pt_index pt : ℕ) → (pt_flags : Flags) → Vm
      → Vm
  copy_table zero make_ro pgd new_pgd i j pt pt_flags vm = vm
  copy_table (suc rounds) make_ro pgd new_pgd i j pt pt_flags vm =
      copy_table rounds make_ro pgd new_pgd i (j + 1) pt pt_flags
        (copy_pte make_ro pgd new_pgd i j pt_flags (vm.mem pt j) vm)

  unfoldable pub copy_tables :
      (rounds : ℕ) → (make_ro : Bool) → (pgd new_pgd pgd_index : ℕ) → Vm → ℤ × Vm
  copy_tables zero make_ro pgd new_pgd i vm = (pos 0, vm)
  copy_tables (suc rounds) make_ro pgd new_pgd i vm =
      let e = vm.mem pgd i in
      let skipped = copy_tables rounds make_ro pgd new_pgd (i + 1) vm in
      let (new_pt, made) = check_and_alloc_pt vm new_pgd i e.flags e.flags in
      let rest =
        copy_tables rounds make_ro pgd new_pgd (i + 1)
          (copy_table table_entries make_ro pgd new_pgd i 0 e.address e.flags made) in
      if not (is_accessible e) then skipped else if new_pt == 0 then (minus_one, made) else rest

  -- `memcpy(new_pgd, pgd, 4*4)`: the kernel's tables are shared.
  pub share_kernel : ((table index : ℕ) → Pte) → (pgd new_pgd : ℕ) → (table index : ℕ) → Pte
  share_kernel mem pgd new_pgd t i =
      if (t == new_pgd) && ltb i first_user then mem pgd i else mem t i

  pub vm_ref_copy : (user_mem_start : ℕ) → Vm → (pgd new_pgd : ℕ) → (make_ro : Bool) → ℤ × Vm
  vm_ref_copy user_mem_start vm pgd new_pgd make_ro =
      if not (pgd_check_valid user_mem_start pgd && pgd_check_valid user_mem_start new_pgd)
      then (minus_one, vm)
      else copy_tables user_tables make_ro pgd new_pgd first_user
          (record vm { mem = share_kernel vm.mem pgd new_pgd })

  -- The page gets a frame of its own, by way of the page at LAST_PAGE_ADDR.
  pub move_frame :
      (last_page_addr : ℕ) → Vm → (pgd linear_addr : ℕ) → (pt_flags frm_flags : Flags) → ℤ × Vm
  move_frame last_page_addr vm pgd linear_addr pt_flags frm_flags =
      let (r, vm) = pgd_insert ok vm pgd last_page_addr pt_flags frm_flags 0 in
      if lt_int r (pos 0)
      then (minus_one, vm)
      else (let (_, vm) = pt_entry_delete vm pgd linear_addr false in
          let new_frm_addr = pgd_get_frm vm pgd last_page_addr in
          let (r, vm) = pgd_insert ok vm pgd linear_addr pt_flags frm_flags new_frm_addr in
          if lt_int r (pos 0)
          then (minus_one, vm)
          else (let (frm, vm) = pt_entry_delete vm pgd last_page_addr true in
              if frm == 0 then (minus_one, vm) else (pos 0, vm)))

  pub vm_frm_copy :
      (user_mem_start last_page_addr : ℕ)
      → Vm
      → (pgd linear_addr : ℕ) → (make_writable : Bool) → ℤ × Vm
  vm_frm_copy user_mem_start last_page_addr vm pgd linear_addr make_writable =
      if not (pgd_check_valid user_mem_start pgd)
      then (minus_one, vm)
      else (let pt = vm.mem pgd (get_pgd_index linear_addr) in
          let e = vm.mem pt.address (get_pt_index linear_addr) in
          let ref_count = get_frame_refs vm.frames e.address in
          let shared = record vm {
            frames = (set_frame_refs ok vm.frames e.address (int_dec ref_count)).1;
          } in
          if is_null pt
          then (minus_one, vm)
          else if eq_int ref_count (pos 1)
          then (
            pos 0,
            if make_writable
                then record vm {
                  mem =
                      store vm.mem pt.address (get_pt_index linear_addr)
                        (record e { flags = record e.flags { writable = true } });
                }
                else vm,
          )
          else move_frame last_page_addr shared pgd linear_addr
              (made_writable make_writable pt.flags) (made_writable make_writable e.flags))

-- The counts of the frames that the copy has shared so far are not lowered.
pub vm_ref_copy_rollback : Vm → ℕ → Vm
vm_ref_copy_rollback vm pgd = if pgd == 0 then vm else free_tables user_tables first_user pgd vm
