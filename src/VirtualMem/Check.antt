-- ===== src/VirtualMem/Check.antt =====
-- vm.c's vm_mem_check and vm_mem_region_check.
use unix_kernel.Base.{
  ℕ, zero, suc, ◌+◌, ◌*◌, ◌/◌, ◌%◌, ◌^◌, ◌≤◌, ◌<◌, ◌≡◌, ◌≢◌, refl, ◌∙◌, ◌⊎◌, inl, inr, Bool, true,
  false, not, Bool-cases, ◌&&◌, ℤ, pos, minus_one, ◌==◌, ltb, if◌then◌else◌, arith, ==_of_ne,
}
use unix_kernel.Pgtable.{Vm, page_size, get_pgd_index, get_pt_index}
use unix_kernel.Pgtable.Macros.{table-address}
use unix_kernel.VirtualMem.{
  Regions, any_flag, is_read_only, vm_mem_check, region_check_from, vm_mem_region_check,
}

and_false : (b : Bool) → (b && false) ≡ false
and_false true = refl
and_false false = refl

-- When the page's table starts a page, as every table does, vm_mem_check answers -1 exactly when
-- the directory has no table for the address, 0 for a table and an address in the text or
-- the read-only data, and 1 else, whatever the entry of the page and the flags are: a page that is
-- not mapped, or not a user's, passes.
pub vm_mem_check_lem :
    (pcb : Regions) (vm : Vm) (pgd x : ℕ)
    → pgd ≢ 0
    → (vm.mem pgd (get_pgd_index x)).address % 2 ^ 12 ≡ 0
    → vm_mem_check pcb vm pgd x ≡ (
        if (vm.mem pgd (get_pgd_index x)).address == 0
        then minus_one
        else if is_read_only pcb x
        then pos 0
        else pos 1)
unfolding vm_mem_check
vm_mem_check_lem pcb vm pgd x nz aligned =
    let pt = vm.mem pgd (get_pgd_index x) in
    let frm = table-address pt.address x aligned in
    let n = ==_of_ne pgd 0 nz in
    elim (Bool-cases (pt.address == 0)) [
      | inl z ↦ rw (vm_mem_check, n, z) refl
      | inr z ↦
          rw (vm_mem_check, n, frm, z) rw
            (
              and_false (any_flag pt.flags),
              and_false (not (pt.address + 4 * get_pt_index x == pt.address)),
            )
            refl
    ]

-- What the check answers, case by case.
check-cases :
    (pcb : Regions) (vm : Vm) (pgd x : ℕ)
    → pgd ≢ 0
    → (vm.mem pgd (get_pgd_index x)).address % 2 ^ 12 ≡ 0
    → (vm_mem_check pcb vm pgd x ≡ minus_one)
      ⊎ (vm_mem_check pcb vm pgd x ≡ pos 0)
      ⊎ (vm_mem_check pcb vm pgd x ≡ pos 1)
check-cases pcb vm pgd x nz aligned =
    let e = vm_mem_check_lem pcb vm pgd x nz aligned in
    elim (Bool-cases ((vm.mem pgd (get_pgd_index x)).address == 0)) [
      | inl z ↦ inl (e ∙ rw z refl)
      | inr z ↦ elim (Bool-cases (is_read_only pcb x)) [
        | inl r ↦ inr (inl (e ∙ rw (z, r) refl))
        | inr r ↦ inr (inr (e ∙ rw (z, r) refl))
      ]
    ]

past_limit :
    (fuel : ℕ) (pcb : Regions) (vm : Vm) (pgd addr limit : ℕ) (writable : ℤ)
    → ltb addr limit ≡ false
    → region_check_from fuel pcb vm pgd addr limit writable ≡ writable
unfolding region_check_from
past_limit zero pcb vm pgd addr limit writable over = refl
past_limit (suc fuel) pcb vm pgd addr limit writable over = rw (region_check_from, over) refl

-- A region of 1 to 2 ^ 12 bytes is checked at its first address alone: vm_mem_region_check answers
-- as vm_mem_check does there, also when the region reaches into the next page.
pub vm_mem_region_check-page :
    (pcb : Regions) (vm : Vm) (pgd start len : ℕ)
    → pgd ≢ 0
    → (vm.mem pgd (get_pgd_index start)).address % 2 ^ 12 ≡ 0
    → 0 < len
    → len ≤ 2 ^ 12
    → vm_mem_region_check pcb vm pgd start len ≡ vm_mem_check pcb vm pgd start
unfolding vm_mem_region_check region_check_from
vm_mem_region_check-page pcb vm pgd start len nz aligned some_there small =
    let more : ltb start (start + len) ≡ true = ground arith in
    let over : ltb (start + page_size) (start + len) ≡ false = ground arith in
    let rest =
      λ (w : ℤ). past_limit (len / page_size) pcb vm pgd (start + page_size) (start + len) w over in
    elim (check-cases pcb vm pgd start nz aligned) [
      | inl e ↦ rw (region_check_from, more, e) refl
      | inr (inl e) ↦ rw (region_check_from, more, e) (rest (pos 0))
      | inr (inr e) ↦ rw (region_check_from, more, e) (rest (pos 1))
    ]
