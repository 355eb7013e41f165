-- ===== src/UserPages.antt =====
-- kern/syscall/new_pages.c and kern/syscall/remove_pages.c, with the functions of kern/pcb.c that keep
-- the lengths of a process's allocations, over the page tables, the frames and the hash table. The
-- words that new_pages reads at `args` are the arguments `base` and `len`; the clearing of the pages
-- leaves no trace. The processor's directory is the process's. USER_MEM_START is an argument, and
-- USER_STACK_BASE stands in kern/inc/loader.h.
pub mod Removed
mod Tests
use unix_kernel.Base.{
  ℕ, zero, suc, ◌+◌, ◌*◌, ◌/◌, ◌%◌, Bool, true, false, not, ◌||◌, Option, none, some, ℤ, pos,
  negsuc, minus_one, ◌==◌, ltb, if◌then◌else◌, eq_int, lt_int, to_word, of_word,
}
use unix_kernel.Hash.{Ht, ht_insert, ht_delete, ht_lookup}
use unix_kernel.Frame.{HtAllocs, frame_free, frame_get_count}
use unix_kernel.Pgtable.{Flags, Vm, page_size, pt_entry_delete, pgd_get_frm}
use unix_kernel.Pgtable.Walks.{pgd_alloc_pages, check_and_delete_pt}
use unix_kernel.VirtualMem.{Regions, vm_mem_region_check}

-- The parts of a process that the calls change.
pub record Process : Type 0 where
  pub vm : Vm
  pub new_pages_ht : Ht

abbrev pub user_stack_base : ℕ
user_stack_base = 0xc0000000

-- PG_PRESENT | PG_WRITABLE | PG_USER
abbrev pub user_flags : Flags
user_flags = record { present = true; writable = true; user = true; global = false }

pub was_pages_allocated : Ht → (base : ℕ) → ℤ
was_pages_allocated t base = of_word (ht_lookup t base)

pub untrack_pages_allocated : Ht → (base : ℕ) → ℤ × Ht
untrack_pages_allocated t base =
    if ht_lookup t base == 0 then (minus_one, t) else (pos 0, (ht_delete t base).1)

-- `frame_get_count() * PAGE_SIZE` is less than the length.
abbrev pub too_few : ℤ → ℕ → Bool
too_few (pos count) len = ltb (count * page_size) len
too_few (negsuc _) len = true

-- Has none of the pages a frame?
unfoldable pub all_free : (rounds : ℕ) → Vm → (pgd addr : ℕ) → Bool
all_free zero vm pgd addr = true
all_free (suc rounds) vm pgd addr =
    let rest = all_free rounds vm pgd (addr + page_size) in
    if pgd_get_frm vm pgd addr == 0 then rest else false

module _ (ok : HtAllocs) where
  pub track_pages_allocated : Ht → (base : ℕ) → (len : ℤ) → ℤ × Ht
  track_pages_allocated t base len =
      if ht_lookup t base == 0
      then (pos 0, (ht_insert ok.entry_ok ok.queue_ok ok.node_ok t base (to_word len)).1)
      else (minus_one, t)

  -- The frames that are there are mapped; a failure takes no page back.
  pub add_pages : Process → (pgd base len : ℕ) → Option (ℤ × Process)
  add_pages p pgd base len = elim (pgd_alloc_pages ok p.vm pgd base len user_flags user_flags) [
    | none ↦ none
    | some (r, vm) ↦
        if not (eq_int r (pos 0))
        then some (minus_one, record p { vm = vm })
        else (let (tracked, t) = track_pages_allocated p.new_pages_ht base (pos len) in
            if not (eq_int tracked (pos 0))
            then some (minus_one, record { vm = vm; new_pages_ht = t })
            else some (pos 0, record { vm = vm; new_pages_ht = t }))
  ]

  pub new_pages_handler :
      (user_mem_start : ℕ)
      → Regions
      → Process
      → (pgd args base : ℕ) → (len : ℤ) → Option (ℤ × Process)
  new_pages_handler user_mem_start pcb p pgd args base (negsuc len) = some (minus_one, p)
  new_pages_handler user_mem_start pcb p pgd args base (pos len) =
      if lt_int (vm_mem_region_check pcb p.vm pgd args 8) (pos 0)
      then some (minus_one, p)
      else if not (base % page_size == 0)
      then some (minus_one, p)
      else if (len == 0) || not (len % page_size == 0)
      then some (minus_one, p)
      else if too_few (frame_get_count p.vm.frames) len
      then some (minus_one, p)
      else if ltb base user_mem_start || ltb user_stack_base (base + len)
      then some (minus_one, p)
      else if not (all_free (len / page_size) p.vm pgd base)
      then some (minus_one, p)
      else add_pages p pgd base len

  -- Was every page there? The frames are freed whatever their counts of references.
  unfoldable pub remove_frames : (rounds : ℕ) → Vm → (pgd addr : ℕ) → Bool × Vm
  remove_frames zero vm pgd addr = (true, vm)
  remove_frames (suc rounds) vm pgd addr =
      let (frm, left) = pt_entry_delete vm pgd addr false in
      let rest =
        remove_frames rounds (record left { frames = frame_free ok.node_ok left.frames frm }) pgd
          (addr + page_size) in
      if frm == 0 then (false, left) else rest

  -- The length that check_and_delete_pt is given has been counted down to 0.
  unfoldable pub remove_counted : (user_mem_start : ℕ) → Process → (pgd base len : ℕ) → ℤ × Process
  remove_counted user_mem_start p pgd base len =
      let (on, vm) = remove_frames (len / page_size) p.vm pgd base in
      let (r, t) = untrack_pages_allocated p.new_pages_ht base in
      if not on then (minus_one, record p { vm = vm }) else (
        if eq_int r (pos 0) then pos 0 else minus_one,
        record { vm = check_and_delete_pt user_mem_start vm pgd base 0; new_pages_ht = t },
      )

  unfoldable pub remove_pages_handler :
      (user_mem_start : ℕ) → Process → (pgd base : ℕ) → ℤ × Process
  remove_pages_handler user_mem_start p pgd base = elim (was_pages_allocated p.new_pages_ht base) [
    | negsuc _ ↦ (minus_one, p)
    | pos len ↦ if len == 0 then (minus_one, p) else remove_counted user_mem_start p pgd base len
  ]
