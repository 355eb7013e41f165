-- ===== src/Pgtable/Delete.antt =====
-- pgtable.c's pt_entry_delete on the entries of a directory.
use unix_kernel.Base.{
  ℕ, ◌≡◌, ◌≢◌, refl, sym, ap, subst, ◌∙◌, ◌⊎◌, inl, inr, Bool, true, false, Bool-cases, ◌&&◌, ◌||◌,
  arith, ◌==◌, if◌then◌else◌, eq_of_==, ne_of_==, ==_of_ne, ◌∷◌,
}
use unix_kernel.Pgtable.{
  Pte, Vm, null_pte, is_accessible, store, pt_entry_delete, get_pgd_index, get_pt_index,
}
use unix_kernel.Pgtable.View.{
  entry_at, IsPgd, store_self, store-other_index, store-other_table, not-accessible-null, set_entry,
}

-- A table that is taken out of the directory.
pub drop_table :
    (mem : (table index : ℕ) → Pte) (pgd i : ℕ)
    → IsPgd mem pgd
    → IsPgd (store mem pgd i null_pte) pgd
      × ((k l : ℕ)
          → entry_at (store mem pgd i null_pte) pgd k l
            ≡ (if k == i then null_pte else entry_at mem pgd k l))
drop_table mem pgd i s =
    let other : (k : ℕ) → k ≢ i → store mem pgd i null_pte pgd k ≡ mem pgd k =
      λ k. store-other_index mem pgd i null_pte pgd k in
    let self = store_self mem pgd i null_pte in
    let absent = not-accessible-null in
    let there : (k : ℕ)
        → is_accessible (store mem pgd i null_pte pgd k) ≡ true
        → store mem pgd i null_pte pgd k ≡ mem pgd k =
      λ k a. elim (Bool-cases (k == i)) [
        | inl q ↦ absurd (
            let gone =
              ap is_accessible (ap (store mem pgd i null_pte pgd) (eq_of_== k i q) ∙ self) in
            ground arith)
        | inr q ↦ other k (ne_of_== k i q)
      ] in
    (
      record {
        clean = λ k. elim (Bool-cases (k == i)) [
          | inl q ↦ rw (eq_of_== k i q, self) (inr refl)
          | inr q ↦ rw (other k (ne_of_== k i q)) (s.clean k)
        ];
        distinct = λ k l ak al x.
            s.distinct k l (subst (λ e. is_accessible e ≡ true) (there k ak) ak)
              (subst (λ e. is_accessible e ≡ true) (there l al) al)
              (sym (ap (λ e. e.address) (there k ak)) ∙ x ∙ ap (λ e. e.address) (there l al));
        apart = λ k ak x.
            s.apart k (subst (λ e. is_accessible e ≡ true) (there k ak) ak)
              (sym (ap (λ e. e.address) (there k ak)) ∙ x);
      },
      λ k l. elim (Bool-cases (k == i)) [
        | inl q ↦ rw (q, eq_of_== k i q, self, absent) refl
        | inr q ↦ elim (Bool-cases (is_accessible (mem pgd k))) [
          | inl ak ↦
              rw (q, other k (ne_of_== k i q), ak)
                (store-other_table mem pgd i null_pte (mem pgd k).address l (s.apart k ak))
          | inr ak ↦ rw (q, other k (ne_of_== k i q), ak) refl
        ]
      ],
    )

-- pt_entry_delete of a page whose entry is not accessible answers NULL and changes nothing. Else it
-- answers the address of the page's frame, and takes out the page's entry, or, when `delete_pt` is
-- set, every entry of the page's table, which it frees; every other entry of the directory is what
-- it was. The directory stays well formed, and no frame is freed or taken.
pub pt_entry_delete_lem :
    (vm : Vm) (pgd x : ℕ) (delete_pt : Bool)
    → pgd ≢ 0
    → IsPgd vm.mem pgd
    → ((is_accessible (entry_at vm.mem pgd (get_pgd_index x) (get_pt_index x)) ≡ false)
        × (pt_entry_delete vm pgd x delete_pt ≡ (0, vm)))
      ⊎ ((is_accessible (entry_at vm.mem pgd (get_pgd_index x) (get_pt_index x)) ≡ true)
          × ((pt_entry_delete vm pgd x delete_pt).0
              ≡ (entry_at vm.mem pgd (get_pgd_index x) (get_pt_index x)).address)
          × IsPgd (pt_entry_delete vm pgd x delete_pt).1.mem pgd
          × ((k l : ℕ)
              → entry_at (pt_entry_delete vm pgd x delete_pt).1.mem pgd k l ≡ (
                  if (k == get_pgd_index x) && (delete_pt || (l == get_pt_index x))
                  then null_pte
                  else entry_at vm.mem pgd k l))
          × ((pt_entry_delete vm pgd x delete_pt).1.freed
              ≡ (if delete_pt then (vm.mem pgd (get_pgd_index x)).address ∷ vm.freed else vm.freed))
          × ((pt_entry_delete vm pgd x delete_pt).1.frames ≡ vm.frames))
unfolding pt_entry_delete
pt_entry_delete_lem vm pgd x delete_pt nz s =
    let i = get_pgd_index x in
    let j = get_pt_index x in
    let n = ==_of_ne pgd 0 nz in
    elim (Bool-cases (is_accessible (vm.mem pgd i))) [
      | inr a ↦ inl (rw a not-accessible-null, rw (pt_entry_delete, n, a) refl)
      | inl a ↦ elim (Bool-cases (is_accessible (vm.mem (vm.mem pgd i).address j))) [
        | inr b ↦ inl (rw a b, rw (pt_entry_delete, n, a, b) refl)
        | inl b ↦
            let (is, at) = set_entry vm.mem pgd i j null_pte s a in
            elim (Bool-cases delete_pt) [
              | inr d ↦ inr (
                rw a b,
                rw (pt_entry_delete, n, a, b, d) refl,
                rw (pt_entry_delete, n, a, b, d) is,
                rw (pt_entry_delete, n, a, b, d) at,
                rw (pt_entry_delete, n, a, b, d) refl,
                rw (pt_entry_delete, n, a, b, d) refl,
              )
              | inl d ↦
                  let (is', at') =
                    drop_table (store vm.mem (vm.mem pgd i).address j null_pte) pgd i is in
                  inr (
                    rw a b,
                    rw (pt_entry_delete, n, a, b, d) refl,
                    rw (pt_entry_delete, n, a, b, d) is',
                    rw (pt_entry_delete, n, a, b, d)
                        (λ k l. at' k l ∙ elim (Bool-cases (k == i)) [
                          | inl q ↦ rw q refl
                          | inr q ↦ rw q (at k l ∙ rw q refl)
                        ]),
                    rw (pt_entry_delete, n, a, b, d) refl,
                    rw (pt_entry_delete, n, a, b, d) refl,
                  )
            ]
      ]
    ]

-- Without `delete_pt`, no table is taken out.
pub pt_entry_delete-tables :
    (vm : Vm) (pgd x : ℕ)
    → pgd ≢ 0
    → IsPgd vm.mem pgd
    → (k : ℕ) → (pt_entry_delete vm pgd x false).1.mem pgd k ≡ vm.mem pgd k
unfolding pt_entry_delete
pt_entry_delete-tables vm pgd x nz s k =
    let i = get_pgd_index x in
    let j = get_pt_index x in
    let n = ==_of_ne pgd 0 nz in
    elim (Bool-cases (is_accessible (vm.mem pgd i))) [
      | inr a ↦ rw (pt_entry_delete, n, a) refl
      | inl a ↦ elim (Bool-cases (is_accessible (vm.mem (vm.mem pgd i).address j))) [
        | inr b ↦ rw (pt_entry_delete, n, a, b) refl
        | inl b ↦
            rw (pt_entry_delete, n, a, b)
              (store-other_table vm.mem (vm.mem pgd i).address j null_pte pgd k
                (λ q. s.apart i a (sym q)))
      ]
    ]
