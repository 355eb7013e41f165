-- ===== src/Pgtable/Pages.antt =====
-- The loop of Pgtable.Walks over a range of pages ends with the fuel that it is given.
use unix_kernel.Base.{
  ℕ, zero, suc, ◌+◌, ◌-◌, ◌*◌, ◌/◌, ◌%◌, ◌^◌, ◌≤◌, ◌<◌, ◌≡◌, refl, ap, ◌⊎◌, inl, inr, true, false,
  Bool-cases, some, none, ℤ, pos, minus_one, arith, leb, eq_int, Option, ◌∙◌, sym,
}
use unix_kernel.Frame.{HtAllocs}
use unix_kernel.Pgtable.{Flags, Vm, page_size, get_address, pgd_insert}
use unix_kernel.Pgtable.Walks.{last_address, alloc_pages_from, pgd_alloc_pages}

module _ (ok : HtAllocs) where
  alloc_pages_from_lem :
      (fuel : ℕ) (vm : Vm) (pgd addr last : ℕ) (pt_flags frm_flags : Flags)
      → last < addr + fuel * 4096
      → last < 2 ^ 32 - 4096
      → (r : ℤ) × (left : Vm) × (alloc_pages_from ok (suc fuel) vm pgd addr last pt_flags frm_flags
          ≡ some (r, left))
        × ((r ≡ pos 0) ⊎ (r ≡ minus_one))
  unfolding alloc_pages_from
  alloc_pages_from_lem zero vm pgd addr last pt_flags frm_flags enough low =
      let over : leb addr last ≡ false = ground arith in (pos 0, vm, rw over refl, inl refl)
  alloc_pages_from_lem (suc fuel) vm pgd addr last pt_flags frm_flags enough low =
      let after = pgd_insert ok vm pgd addr pt_flags frm_flags 0 in
      elim (Bool-cases (leb addr last)) [
        | inr over ↦ (pos 0, vm, rw over refl, inl refl)
        | inl more ↦ elim (Bool-cases (eq_int after.0 (pos 0))) [
          | inr failed ↦ (minus_one, after.1, rw (more, failed) refl, inr refl)
          | inl done ↦
              let no_wrap : (addr + page_size) % 2 ^ 32 ≡ addr + page_size = ground arith in
              let (r, left, e, range) =
                alloc_pages_from_lem fuel after.1 pgd ((addr + page_size) % 2 ^ 32) last pt_flags
                  frm_flags (omega arith) low in
              (r, left, rw (more, done) e, range)
        ]
      ]

  -- At a range that reaches the last page, the loop only ends when a page cannot be mapped.
  never_done :
      (fuel : ℕ) (vm : Vm) (pgd addr last : ℕ) (pt_flags frm_flags : Flags) (r : ℤ) (left : Vm)
      → addr % 4096 ≡ 0
      → addr < 2 ^ 32
      → 2 ^ 32 - 4096 ≤ last
      → alloc_pages_from ok fuel vm pgd addr last pt_flags frm_flags ≡ some (r, left)
      → r ≡ minus_one
  unfolding alloc_pages_from
  never_done zero vm pgd addr last pt_flags frm_flags r left page low high e = ground arith
  never_done (suc fuel) vm pgd addr last pt_flags frm_flags r left page low high e =
      let after = pgd_insert ok vm pgd addr pt_flags frm_flags 0 in
      let more : leb addr last ≡ true = ground arith in
      elim (Bool-cases (eq_int after.0 (pos 0))) [
        | inr failed ↦
            let stop : alloc_pages_from ok (suc fuel) vm pgd addr last pt_flags frm_flags
                ≡ some (minus_one, after.1) =
              rw (alloc_pages_from, more, failed) refl in
            ap (λ (o : Option (ℤ × Vm)). elim o [ none ↦ minus_one | some p ↦ p.0 ]) (sym e ∙ stop)
        | inl done ↦
            let on : alloc_pages_from ok (suc fuel) vm pgd addr last pt_flags frm_flags
                ≡ alloc_pages_from ok fuel after.1 pgd ((addr + page_size) % 2 ^ 32) last pt_flags
                    frm_flags =
              rw (alloc_pages_from, more, done) refl in
            never_done fuel after.1 pgd ((addr + page_size) % 2 ^ 32) last pt_flags frm_flags r left
              (omega arith) (omega arith) high (sym on ∙ e)
      ]

  pub pages_end :
      (vm : Vm) (pgd start size : ℕ) (pt_flags frm_flags : Flags)
      → last_address start size < 2 ^ 32 - page_size
      → (r : ℤ) × (left : Vm) × (pgd_alloc_pages ok vm pgd start size pt_flags frm_flags
          ≡ some (r, left))
        × ((r ≡ pos 0) ⊎ (r ≡ minus_one))
  unfolding pgd_alloc_pages get_address
  pages_end vm pgd start size pt_flags frm_flags =
      alloc_pages_from_lem (last_address start size / page_size + 1) vm pgd (get_address start)
        (last_address start size) pt_flags frm_flags (omega arith)

  -- For a range whose last byte lies below the last page of the 32-bit addresses, pgd_alloc_pages
  -- ends, whatever the state, and answers 0 or -1. For one whose last byte lies in the last page, no
  -- number of rounds of its loop ends with 0, since the address wraps: it ends only with -1, at
  -- a page that cannot be mapped.
  pub pgd_alloc_pages_lem :
      (vm : Vm) (pgd start_linear_addr size : ℕ) (pt_flags frm_flags : Flags)
      → start_linear_addr < 2 ^ 32
      → (last_address start_linear_addr size < 2 ^ 32 - page_size
          → (r : ℤ) × (left : Vm) × (pgd_alloc_pages ok vm pgd start_linear_addr size pt_flags
                frm_flags
              ≡ some (r, left))
            × ((r ≡ pos 0) ⊎ (r ≡ minus_one)))
        × ((fuel : ℕ) (r : ℤ) (left : Vm)
            → 2 ^ 32 - page_size ≤ last_address start_linear_addr size
            → alloc_pages_from ok fuel vm pgd
                (get_address start_linear_addr)
                (last_address start_linear_addr size)
                pt_flags
                frm_flags
              ≡ some (r, left)
            → r ≡ minus_one)
  unfolding get_address
  pgd_alloc_pages_lem vm pgd start size pt_flags frm_flags small = (
    pages_end vm pgd start size pt_flags frm_flags,
    λ fuel r left high.
        never_done fuel vm pgd (get_address start) (last_address start size) pt_flags frm_flags r
          left (omega arith) (omega arith) high,
  )
