-- ===== src/UserPages/Removed.antt =====
-- What remove_pages leaves of the page tables.
use unix_kernel.Base.{
  ℕ, zero, suc, ◌+◌, ◌/◌, ◌≡◌, ◌≢◌, refl, ◌∙◌, ◌⊎◌, inl, inr, false, Bool-cases, ℤ, pos, negsuc,
  ◌==◌, ltb,
}
use unix_kernel.Frame.{HtAllocs, frame_free}
use unix_kernel.Pgtable.{Vm, page_size, pt_entry_delete}
use unix_kernel.Pgtable.View.{IsPgd, IsPgd-same}
use unix_kernel.Pgtable.Delete.{pt_entry_delete_lem, pt_entry_delete-tables}
use unix_kernel.Pgtable.Walks.{check_and_delete_pt}
use unix_kernel.UserPages.{
  Process, was_pages_allocated, remove_frames, remove_counted, remove_pages_handler,
}

-- The directory is what it was, and no page has been given to sfree.
pub record KeepsTables (vm vm' : Vm) (pgd : ℕ) : Type 0 where
  pub directory : (k : ℕ) → vm'.mem pgd k ≡ vm.mem pgd k
  pub freed : vm'.freed ≡ vm.freed

delete-freed :
    (vm : Vm) (pgd x : ℕ)
    → pgd ≢ 0
    → IsPgd vm.mem pgd
    → (pt_entry_delete vm pgd x false).1.freed ≡ vm.freed
delete-freed vm pgd x nz s = elim (pt_entry_delete_lem vm pgd x false nz s) [
  | inl (_, e) ↦ rw e refl
  | inr (_, _, _, _, freed, _) ↦ freed
]

Int-cases : (x : ℤ) → ((n : ℕ) × (x ≡ pos n)) ⊎ ((n : ℕ) × (x ≡ negsuc n))
Int-cases (pos n) = inl (n, refl)
Int-cases (negsuc n) = inr (n, refl)

none_removed : {vm : Vm} {pgd : ℕ} → KeepsTables vm vm pgd
none_removed = record { directory = λ k. refl; freed = refl }

module _ (ok : HtAllocs) where
  remove_frames_lem :
      (rounds : ℕ) (vm : Vm) (pgd addr : ℕ)
      → pgd ≢ 0
      → IsPgd vm.mem pgd
      → KeepsTables vm (remove_frames ok rounds vm pgd addr).1 pgd
  unfolding remove_frames
  remove_frames_lem zero vm pgd addr nz s = record { directory = λ k. refl; freed = refl }
  remove_frames_lem (suc rounds) vm pgd addr nz s =
      let same = pt_entry_delete-tables vm pgd addr nz s in
      let freed = delete-freed vm pgd addr nz s in
      let left = (pt_entry_delete vm pgd addr false).1 in
      let frm = (pt_entry_delete vm pgd addr false).0 in
      elim (Bool-cases (frm == 0)) [
        | inl z ↦ rw (remove_frames, z) (record { directory = same; freed = freed })
        | inr z ↦
            let rest =
              remove_frames_lem rounds
                (record left { frames = frame_free ok.node_ok left.frames frm }) pgd
                (addr + page_size) nz (IsPgd-same vm.mem left.mem pgd same s) in
            rw (remove_frames, z)
              (record { directory = λ k. rest.directory k ∙ same k; freed = rest.freed ∙ freed })
      ]

  nothing_deleted :
      (user_mem_start : ℕ) (vm : Vm) (pgd base : ℕ)
      → check_and_delete_pt user_mem_start vm pgd base 0 ≡ vm
  unfolding check_and_delete_pt
  nothing_deleted user_mem_start vm pgd base = elim (Bool-cases (pgd == 0)) [
    | inl z ↦ rw (check_and_delete_pt, z) refl
    | inr z ↦ elim (Bool-cases (ltb base user_mem_start)) [
      | inl b ↦ rw (check_and_delete_pt, z, b) refl
      | inr b ↦ rw (check_and_delete_pt, z, b) refl
    ]
  ]

  remove_counted_lem :
      (user_mem_start : ℕ) (p : Process) (pgd base len : ℕ)
      → pgd ≢ 0
      → IsPgd p.vm.mem pgd
      → KeepsTables p.vm (remove_counted ok user_mem_start p pgd base len).1.vm pgd
  unfolding remove_counted
  remove_counted_lem user_mem_start p pgd base len nz s =
      let all = remove_frames_lem (len / page_size) p.vm pgd base nz s in
      let vm = (remove_frames ok (len / page_size) p.vm pgd base).1 in
      elim (Bool-cases (remove_frames ok (len / page_size) p.vm pgd base).0) [
        | inl on ↦ rw (remove_counted, on, nothing_deleted user_mem_start vm pgd base) all
        | inr off ↦ rw (remove_counted, off) all
      ]

  -- remove_pages, of a well-formed directory, leaves every page table in the directory and frees
  -- none, whether it fails or not: the tables of the pages that it removes stay, although it calls
  -- check_and_delete_pt to delete those that are empty.
  pub remove_pages_handler_lem :
      (user_mem_start : ℕ) (p : Process) (pgd base : ℕ)
      → pgd ≢ 0
      → IsPgd p.vm.mem pgd
      → KeepsTables p.vm (remove_pages_handler ok user_mem_start p pgd base).1.vm pgd
  unfolding remove_pages_handler remove_counted
  remove_pages_handler_lem user_mem_start p pgd base nz s =
      elim (Int-cases (was_pages_allocated p.new_pages_ht base)) [
        | inr (n, e) ↦ rw (remove_pages_handler, e) none_removed
        | inl (len, e) ↦ elim (Bool-cases (len == 0)) [
          | inl z ↦ rw (remove_pages_handler, e, z) none_removed
          | inr z ↦
              rw (remove_pages_handler, e, z)
                (remove_counted_lem user_mem_start p pgd base len nz s)
        ]
      ]
