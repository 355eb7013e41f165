-- ===== src/Pgtable/Cleanup.antt =====
-- pgtable.c's walks over all user pages of a directory, which give their frames back:
-- pgd_process_cleanup, when a process ends, and pgd_cleanup, before exec loads a program. The kernel's
-- pages are those of the first four tables.
use unix_kernel.Base.{
  ℕ, zero, suc, ◌+◌, Bool, true, false, not, ℤ, pos, minus_one, ◌==◌, if◌then◌else◌, eq_int, lt_int,
  int_dec,
}
use unix_kernel.Frame.{Frames, HtAllocs, frame_free, get_frame_refs, set_frame_refs}
use unix_kernel.Pgtable.{Pte, Vm, null_pte, is_accessible, store, sfree}

-- `PAGE_SIZE / 4`, and the tables from the first one of the user on.
abbrev pub table_entries : ℕ
table_entries = 1024

abbrev pub first_user : ℕ
first_user = 4

abbrev pub user_tables : ℕ
user_tables = 1020

module _ (ok : HtAllocs) where
  -- The count of a frame's references, one lower.
  unfoldable pub drop_ref : Frames → ℕ → ℤ → Frames
  drop_ref frames frm refs =
      (set_frame_refs ok frames frm (if eq_int refs (pos 1) then minus_one else int_dec refs)).1

  unfoldable pub free_last : Frames → ℕ → ℤ → Frames
  free_last frames frm refs =
      if eq_int refs (pos 1) then frame_free ok.node_ok frames frm else frames

  -- Does the walk go on?
  unfoldable pub release_pte : Vm → Pte → Bool × Vm
  release_pte vm e =
      if not (is_accessible e)
      then (true, vm)
      else (let refs = get_frame_refs vm.frames e.address in
          let frames = drop_ref vm.frames e.address refs in
          if lt_int refs (pos 1)
          then (false, record vm { frames = frames })
          else (true, record vm { frames = free_last frames e.address refs }))

  -- `rounds` entries are left, from the index `j` on.
  unfoldable pub release_table : (rounds j pt : ℕ) → Vm → Bool × Vm
  release_table zero j pt vm = (true, vm)
  release_table (suc rounds) j pt vm =
      let (on, vm) = release_pte vm (vm.mem pt j) in
      let rest = release_table rounds (j + 1) pt vm in if on then rest else (false, vm)

  unfoldable pub release_tables : (rounds i pgd : ℕ) → Vm → Bool × Vm
  release_tables zero i pgd vm = (true, vm)
  release_tables (suc rounds) i pgd vm =
      let e = vm.mem pgd i in
      let skipped = release_tables rounds (i + 1) pgd vm in
      let (on, vm) = release_table table_entries 0 e.address vm in
      let rest = release_tables rounds (i + 1) pgd (sfree e.address vm) in
      if not (is_accessible e) then skipped else if on then rest else (false, vm)

  unfoldable pub pgd_process_cleanup : Vm → ℕ → Vm
  pgd_process_cleanup vm pgd =
      if pgd == 0
      then vm
      else (let (on, vm) = release_tables user_tables first_user pgd vm in
          if on then sfree pgd vm else vm)

  -- pgd_cleanup does not look at the present flag, and goes on after a count below 1.
  pub clean_pte : Vm → Pte → Vm
  clean_pte vm e =
      if e.address == 0
      then vm
      else (let refs = get_frame_refs vm.frames e.address in
          record vm { frames = free_last (drop_ref vm.frames e.address refs) e.address refs })

  unfoldable pub clean_table : (rounds j pt : ℕ) → Vm → Vm
  clean_table zero j pt vm = vm
  clean_table (suc rounds) j pt vm = clean_table rounds (j + 1) pt (clean_pte vm (vm.mem pt j))

  unfoldable pub clean_tables : (rounds i pgd : ℕ) → Vm → Vm
  clean_tables zero i pgd vm = vm
  clean_tables (suc rounds) i pgd vm =
      let e = vm.mem pgd i in
      let cleaned = clean_table table_entries 0 e.address vm in
      clean_tables rounds (i + 1) pgd (
        if e.address == 0
        then vm
        else sfree e.address (record cleaned { mem = store cleaned.mem pgd i null_pte }))

  pub pgd_cleanup : Vm → ℕ → Vm
  pgd_cleanup vm pgd = if pgd == 0 then vm else clean_tables user_tables first_user pgd vm
