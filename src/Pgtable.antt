-- ===== src/Pgtable.antt =====
-- kern/vm/pgtable.c and the macros of kern/inc/pgtable.h. A directory or a page table is the address
-- of its page and holds an entry at each index; an entry is the address of a page, 0 for NULL, with
-- the flag bits that the kernel sets: 0, 1, 2 and 8. Bits that do not overlap make `|` a sum.
-- `smem` is what smemalign answers next, 0 once it has nothing left, and `freed` logs the pages given
-- to sfree, the latest first. Addresses do not wrap at 2 ^ 32. USER_MEM_START, a constant of the
-- kernel's environment, is an argument, and PAGE_SIZE is 2 ^ PAGE_SHIFT. Each call runs with its
-- process's lock held, so that it is one step.
pub mod Macros
pub mod Walks
pub mod Cleanup
pub mod View
pub mod Tables
pub mod Insert
pub mod Delete
pub mod Release
pub mod Ended
pub mod Pages
pub mod Tests
use unix_kernel.Base.{
  ℕ, zero, suc, ◌+◌, ◌-◌, ◌*◌, ◌/◌, ◌%◌, ◌^◌, Bool, true, false, not, ◌&&◌, ◌||◌, List, [], ◌∷◌, ℤ,
  pos, minus_one, ◌==◌, ltb, leb, if◌then◌else◌,
}
use unix_kernel.Frame.{Frames, HtAllocs, frame_alloc}

-- PG_PRESENT, PG_WRITABLE, PG_USER and PG_PREVENT_MAPPING_FLUSHED.
pub record Flags : Type 0 where
  pub present : Bool
  pub writable : Bool
  pub user : Bool
  pub global : Bool

-- GET_ADDRESS and GET_FLAGS of an entry.
pub record Pte : Type 0 where
  pub address : ℕ
  pub flags : Flags

pub record Vm : Type 0 where
  pub mem : (table index : ℕ) → Pte
  pub frames : Frames
  pub smem : List ℕ
  pub freed : List ℕ

abbrev pub page_size : ℕ
page_size = 2 ^ 12

abbrev pub no_flags : Flags
no_flags = record { present = false; writable = false; user = false; global = false }

abbrev pub null_pte : Pte
null_pte = record { address = 0; flags = no_flags }

abbrev pub or_flags : Flags → Flags → Flags
or_flags a b = record {
  present = a.present || b.present;
  writable = a.writable || b.writable;
  user = a.user || b.user;
  global = a.global || b.global;
}

-- Is the whole entry NULL?
pub is_null : Pte → Bool
is_null e =
    (e.address == 0) && not (e.flags.present || e.flags.writable || e.flags.user || e.flags.global)

-- `pt != NULL && IS_PRESENT(flags)`
unfoldable pub is_accessible : Pte → Bool
is_accessible e = not (e.address == 0) && e.flags.present

pub get_pgd_index : ℕ → ℕ
get_pgd_index x = x / 2 ^ 22 % 2 ^ 10

pub get_pt_index : ℕ → ℕ
get_pt_index x = x / 2 ^ 12 % 2 ^ 10

pub get_linear_addr : (pgd pte : ℕ) → ℕ
get_linear_addr pgd pte = pgd * 2 ^ 22 + pte * 2 ^ 12

-- GET_ADDRESS of an address.
pub get_address : ℕ → ℕ
get_address x = x / 2 ^ 12 * 2 ^ 12

unfoldable pub store : ((table index : ℕ) → Pte) → (table index : ℕ) → Pte → (table index : ℕ) → Pte
store mem t i e u j = if (u == t) && (j == i) then e else mem u j

-- `memset(page, 0, PAGE_SIZE)`
unfoldable pub clear : ((table index : ℕ) → Pte) → ℕ → (table index : ℕ) → Pte
clear mem t u j = if u == t then null_pte else mem u j

pub smemalign : Vm → ℕ × Vm
smemalign vm = elim vm.smem [ [] ↦ (0, vm) | page ∷ left ↦ (page, record vm { smem = left }) ]

abbrev pub sfree : ℕ → Vm → Vm
sfree page vm = record vm { freed = page ∷ vm.freed }

pub pgd_alloc : Vm → ℕ × Vm
pgd_alloc vm =
    let (page, vm) = smemalign vm in
    if page == 0 then (0, vm) else (page, record vm { mem = clear vm.mem page })

unfoldable pub pgd_check_valid : (user_mem_start pgd : ℕ) → Bool
pgd_check_valid user_mem_start pgd =
    not (pgd == 0) && ltb pgd user_mem_start && (pgd % page_size == 0)

-- The flags of the table once a frame with `frm_flags` is put into it.
abbrev pub lower_privilege : (pt_flags frm_flags : Flags) → Flags
lower_privilege pt_flags frm_flags = record pt_flags {
  present = pt_flags.present || frm_flags.present;
  writable = pt_flags.writable || frm_flags.writable;
  user = pt_flags.user || frm_flags.user;
}

pub check_and_alloc_pt : Vm → (pgd pgd_index : ℕ) → (pt_flags frm_flags : Flags) → ℕ × Vm
check_and_alloc_pt vm pgd pgd_index pt_flags frm_flags =
    let e = vm.mem pgd pgd_index in
    let flags = lower_privilege pt_flags frm_flags in
    if is_accessible e
    then (
      e.address,
      record vm { mem = store vm.mem pgd pgd_index (record e { flags = or_flags e.flags flags }) },
    )
    else (let (pt, vm) = smemalign vm in
        if pt == 0 then (0, vm) else (
          pt,
          record vm {
            mem = store (clear vm.mem pt) pgd pgd_index (record { address = pt; flags = flags });
          },
        ))

pub pgd_direct_map : Vm → (pgd linear_addr : ℕ) → Flags → ℤ × Vm
pgd_direct_map vm pgd linear_addr flags =
    if pgd == 0
    then (minus_one, vm)
    else (let (pt, vm) = check_and_alloc_pt vm pgd (get_pgd_index linear_addr) flags flags in
        if pt == 0 then (minus_one, vm) else (
          pos 0,
          record vm {
            mem =
                store vm.mem pt (get_pt_index linear_addr)
                  (record { address = linear_addr; flags = flags });
          },
        ))

module _ (ok : HtAllocs) where
  -- What pgd_insert does with the entry of the page once its table is there.
  pub insert_pte : Vm → (pt pt_index : ℕ) → (frm_flags : Flags) → (phy_frame : ℕ) → ℤ × Vm
  insert_pte vm pt pt_index frm_flags phy_frame =
      let e = vm.mem pt pt_index in
      if not (is_null e)
      then (pos 0, record vm { mem = store vm.mem pt pt_index (record e { flags = frm_flags }) })
      else if phy_frame == 0
      then (let (free_frm, frames) = frame_alloc ok vm.frames in
          if free_frm == 0 then (minus_one, record vm { frames = frames }) else (
            pos 0,
            record vm {
              mem = store vm.mem pt pt_index (record { address = free_frm; flags = frm_flags });
              frames = frames;
            },
          ))
      else (
        pos 0,
        record vm {
          mem = store vm.mem pt pt_index (record { address = phy_frame; flags = frm_flags });
        },
      )

  pub pgd_insert :
      Vm → (pgd linear_addr : ℕ) → (pt_flags frm_flags : Flags) → (phy_frame : ℕ) → ℤ × Vm
  pgd_insert vm pgd linear_addr pt_flags frm_flags phy_frame =
      if pgd == 0
      then (minus_one, vm)
      else (let (pt, vm) =
            check_and_alloc_pt vm pgd (get_pgd_index linear_addr) pt_flags frm_flags in
          if pt == 0
          then (minus_one, vm)
          else insert_pte vm pt (get_pt_index linear_addr) frm_flags phy_frame)

-- `delete_pt` also takes the whole table out of the directory.
pub pt_entry_delete : Vm → (pgd linear_addr : ℕ) → (delete_pt : Bool) → ℕ × Vm
pt_entry_delete vm pgd linear_addr delete_pt =
    if pgd == 0
    then (0, vm)
    else (let pt = vm.mem pgd (get_pgd_index linear_addr) in
        let frm = vm.mem pt.address (get_pt_index linear_addr) in
        if not (is_accessible pt)
        then (0, vm)
        else if not (is_accessible frm)
        then (0, vm)
        else (let mem = store vm.mem pt.address (get_pt_index linear_addr) null_pte in
            if delete_pt
            then (
              frm.address,
              sfree pt.address
                  (record vm { mem = store mem pgd (get_pgd_index linear_addr) null_pte }),
            )
            else (frm.address, record vm { mem = mem })))

pub pgd_get_frm : Vm → (pgd linear_addr : ℕ) → ℕ
pgd_get_frm vm pgd linear_addr =
    if pgd == 0
    then 0
    else (let pt = vm.mem pgd (get_pgd_index linear_addr) in
        let frm = vm.mem pt.address (get_pt_index linear_addr) in
        if is_null pt then 0 else if is_null frm then 0 else frm.address)

pub pgd_get_ptflags : Vm → (pgd linear_addr : ℕ) → Flags
pgd_get_ptflags vm pgd linear_addr =
    if pgd == 0 then no_flags else (vm.mem pgd (get_pgd_index linear_addr)).flags

pub pgd_get_frmflags : Vm → (pgd linear_addr : ℕ) → Flags
pgd_get_frmflags vm pgd linear_addr =
    if pgd == 0
    then no_flags
    else (let pt = vm.mem pgd (get_pgd_index linear_addr) in
        if is_null pt then no_flags else (vm.mem pt.address (get_pt_index linear_addr)).flags)
