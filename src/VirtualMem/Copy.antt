-- ===== src/VirtualMem/Copy.antt =====
-- vm.c's vm_frm_copy of a page whose frame no other page shares.
use unix_kernel.Base.{
  ℕ, ◌≡◌, refl, sym, ap, ◌∙◌, inl, inr, Bool, true, Bool-cases, ◌&&◌, pos, ◌==◌, if◌then◌else◌,
  eq_of_==,
}
use unix_kernel.Frame.{HtAllocs, get_frame_refs}
use unix_kernel.Pgtable.{Vm, is_accessible, get_pgd_index, get_pt_index, pgd_check_valid}
use unix_kernel.Pgtable.View.{entry_at, IsPgd, set_entry, accessible-address}
use unix_kernel.VirtualMem.{vm_frm_copy}

-- vm_frm_copy of a page whose frame has one reference, in a valid and well-formed directory with a
-- table for the page, copies nothing: it answers 0, and the page's entry becomes writable when that is
-- asked for; every other entry and all frames are what they were.
pub vm_frm_copy-last :
    (ok : HtAllocs) (user_mem_start last_page_addr : ℕ) (vm : Vm) (pgd x : ℕ) (make_writable : Bool)
    → pgd_check_valid user_mem_start pgd ≡ true
    → IsPgd vm.mem pgd
    → is_accessible (vm.mem pgd (get_pgd_index x)) ≡ true
    → get_frame_refs vm.frames (entry_at vm.mem pgd (get_pgd_index x) (get_pt_index x)).address
      ≡ pos 1
    → ((vm_frm_copy ok user_mem_start last_page_addr vm pgd x make_writable).0 ≡ pos 0)
      × IsPgd (vm_frm_copy ok user_mem_start last_page_addr vm pgd x make_writable).1.mem pgd
      × ((vm_frm_copy ok user_mem_start last_page_addr vm pgd x make_writable).1.frames ≡ vm.frames)
      × ((k l : ℕ)
          → entry_at
              (vm_frm_copy ok user_mem_start last_page_addr vm pgd x make_writable).1.mem
              pgd
              k
              l
            ≡ (if make_writable && ((k == get_pgd_index x) && (l == get_pt_index x))
                then record (entry_at vm.mem pgd k l) {
                  flags = record (entry_at vm.mem pgd k l).flags { writable = true };
                }
                else entry_at vm.mem pgd k l))
unfolding vm_frm_copy
vm_frm_copy-last ok user_mem_start last_page_addr vm pgd x make_writable valid s a last =
    let i = get_pgd_index x in
    let j = get_pt_index x in
    let e = vm.mem (vm.mem pgd i).address j in
    let here : entry_at vm.mem pgd i j ≡ e = rw a refl in
    let refs : get_frame_refs vm.frames e.address ≡ pos 1 =
      ap (λ p. get_frame_refs vm.frames p.address) (sym here) ∙ last in
    let (_, n) = accessible-address (vm.mem pgd i) a in
    let (is, at) =
      set_entry vm.mem pgd i j (record e { flags = record e.flags { writable = true } }) s a in
    elim (Bool-cases make_writable) [
      | inr w ↦ (
        rw (vm_frm_copy, valid, n, refs) refl,
        rw (vm_frm_copy, valid, n, refs, w) s,
        rw (vm_frm_copy, valid, n, refs, w) refl,
        λ k l. rw (vm_frm_copy, valid, n, refs, w) refl,
      )
      | inl w ↦ (
        rw (vm_frm_copy, valid, n, refs) refl,
        rw (vm_frm_copy, valid, n, refs, w) is,
        rw (vm_frm_copy, valid, n, refs, w) refl,
        λ k l.
            rw (vm_frm_copy, valid, n, refs, w)
              (at k l ∙ elim (Bool-cases (k == i)) [
                | inl q ↦ elim (Bool-cases (l == j)) [
                  | inl p ↦ rw (q, p, eq_of_== k i q, eq_of_== l j p, a) refl
                  | inr p ↦ rw (q, p) refl
                ]
                | inr q ↦ rw q refl
              ]),
      )
    ]
