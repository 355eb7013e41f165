-- ===== src/VirtualMem/Tests.antt =====
-- Checks and copies in the directory of Pgtable.Tests.
use unix_kernel.Base.{ℕ, ◌≡◌, refl, true, ◌&&◌, pos, ◌==◌, if◌then◌else◌, arith, ap, sym, ◌≢◌, ◌∙◌}
use unix_kernel.Frame.{all_ok, frame_alloc, get_frame_refs, set_frame_refs}
use unix_kernel.Frame.Tests.{one, one-IsFrames, one-all, shared, shared-refs, shared-next}
use unix_kernel.Frame.Refs.{refs_of, get_frame_refs_lem}
use unix_kernel.Pgtable.{is_accessible, get_pgd_index, get_pt_index, pgd_check_valid}
use unix_kernel.Pgtable.View.{entry_at, IsPgd}
use unix_kernel.Pgtable.Tests.{
  pgd, page, used_vm, used-IsPgd, used-table, shared_vm, shared-IsFresh, shared-page, last-no_table,
}
use unix_kernel.VirtualMem.{Regions, vm_frm_copy, made_writable}
use unix_kernel.VirtualMem.Copy.{vm_frm_copy-last}
use unix_kernel.VirtualMem.Moved.{vm_frm_copy-shared}

abbrev program : Regions
program = record { txt_base = 0x1000000; txt_len = 100; rodat_base = 0; rodat_len = 0 }

pgd-valid : pgd_check_valid 0x1000000 pgd ≡ true
unfolding pgd_check_valid
pgd-valid = refl

one_reference :
    get_frame_refs used_vm.frames
      (entry_at used_vm.mem pgd (get_pgd_index page) (get_pt_index page)).address
    ≡ pos 1
one_reference =
    ap (λ e. get_frame_refs one e.address) used-table.2
    ∙ get_frame_refs_lem one 4096 one-IsFrames.table
    ∙ ap refs_of (one-all 4096)

vm_frm_copy-last_example :
    ((vm_frm_copy all_ok 0x1000000 0xfffff000 used_vm pgd page true).0 ≡ pos 0)
    × IsPgd (vm_frm_copy all_ok 0x1000000 0xfffff000 used_vm pgd page true).1.mem pgd
    × ((vm_frm_copy all_ok 0x1000000 0xfffff000 used_vm pgd page true).1.frames ≡ used_vm.frames)
    × ((k l : ℕ)
        → entry_at (vm_frm_copy all_ok 0x1000000 0xfffff000 used_vm pgd page true).1.mem pgd k l ≡ (
            if true && ((k == get_pgd_index page) && (l == get_pt_index page))
            then record (entry_at used_vm.mem pgd k l) {
              flags = record (entry_at used_vm.mem pgd k l).flags { writable = true };
            }
            else entry_at used_vm.mem pgd k l))
vm_frm_copy-last_example =
    vm_frm_copy-last all_ok 0x1000000 0xfffff000 used_vm pgd page true pgd-valid used-IsPgd
      used-table.0 one_reference

two_references :
    get_frame_refs shared_vm.frames
      (entry_at shared_vm.mem pgd (get_pgd_index page) (get_pt_index page)).address
    ≡ pos 2
two_references = ap (λ e. get_frame_refs shared e.address) used-table.2 ∙ shared-refs

page_accessible :
    is_accessible (entry_at shared_vm.mem pgd (get_pgd_index page) (get_pt_index page)) ≡ true
unfolding is_accessible
page_accessible = ap is_accessible used-table.2

next_frame :
    (frame_alloc all_ok
      (set_frame_refs all_ok shared_vm.frames
        (entry_at shared_vm.mem pgd (get_pgd_index page) (get_pt_index page)).address
        (pos 1)).1).0
    ≢ 0
next_frame z =
    let same =
      ap (λ e. (frame_alloc all_ok (set_frame_refs all_ok shared e.address (pos 1)).1).0)
        used-table.2
      ∙ shared-next in
    let both = sym z ∙ same in ground arith

vm_frm_copy-shared_example :
    ((vm_frm_copy all_ok 0x1000000 0xfffff000 shared_vm pgd page true).0 ≡ pos 0)
    × IsPgd (vm_frm_copy all_ok 0x1000000 0xfffff000 shared_vm pgd page true).1.mem pgd
    × ((vm_frm_copy all_ok 0x1000000 0xfffff000 shared_vm pgd page true).1.frames
        ≡ (frame_alloc all_ok
            (set_frame_refs all_ok shared_vm.frames
              (entry_at shared_vm.mem pgd (get_pgd_index page) (get_pt_index page)).address
              (pos 1)).1).1)
    × ((k l : ℕ)
        → entry_at (vm_frm_copy all_ok 0x1000000 0xfffff000 shared_vm pgd page true).1.mem pgd k l
          ≡ (if (k == get_pgd_index page) && (l == get_pt_index page)
              then record {
                address =
                    (frame_alloc all_ok
                      (set_frame_refs all_ok shared_vm.frames
                        (entry_at shared_vm.mem pgd
                          (get_pgd_index page)
                          (get_pt_index page)).address
                        (pos 1)).1).0;
                flags =
                    made_writable true
                      (entry_at shared_vm.mem pgd (get_pgd_index page) (get_pt_index page)).flags;
              }
              else entry_at shared_vm.mem pgd k l))
vm_frm_copy-shared_example =
    vm_frm_copy-shared all_ok 0x1000000 0xfffff000 shared_vm pgd page true 0 pgd-valid used-IsPgd
      shared-IsFresh shared-page last-no_table used-table.0 page_accessible two_references
      next_frame
