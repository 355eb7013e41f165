-- ===== src/VirtualMem/Moved.antt =====
-- vm.c's vm_frm_copy of a page whose frame other pages share.
use unix_kernel.Base.{
  ℕ, suc, ◌≡◌, ◌≢◌, refl, sym, ap, subst, ◌∙◌, inl, inr, Bool, true, false, Bool-cases, ◌&&◌, ◌||◌,
  pos, ◌==◌, if◌then◌else◌, arith, eq_of_==, ne_of_==, ==_of_eq, ==_of_ne,
}
use unix_kernel.Frame.{HtAllocs, frame_alloc, get_frame_refs, set_frame_refs}
use unix_kernel.Pgtable.{
  Pte, Flags, Vm, null_pte, is_accessible, smemalign, get_pgd_index, get_pt_index, pgd_check_valid,
  pgd_insert, pt_entry_delete, pgd_get_frm,
}
use unix_kernel.Pgtable.View.{
  entry_at, IsPgd, accessible-address, get_frm_lem, null-is_null, accessible-pte,
}
use unix_kernel.Pgtable.Tables.{IsFresh, IsFresh-frames, smemalign-frames}
use unix_kernel.Pgtable.Insert.{Puts, pgd_insert_lem, pgd_insert-tables}
use unix_kernel.Pgtable.Delete.{pt_entry_delete_lem, pt_entry_delete-tables}
use unix_kernel.VirtualMem.{made_writable, move_frame, vm_frm_copy}

or_present : (a b : Bool) → b ≡ true → (a || b) ≡ true
or_present true b h = refl
or_present false b h = h

module _ (ok : HtAllocs) where
  -- What a page without an entry gets when nothing is missing.
  placed :
      (vm : Vm) (pgd x : ℕ) (pt_flags frm_flags : Flags) (phy_frame : ℕ)
      → pgd ≢ 0
      → IsPgd vm.mem pgd
      → (is_accessible (vm.mem pgd (get_pgd_index x)) ≡ false
          → IsFresh vm pgd × ((smemalign vm).0 ≢ 0))
      → frm_flags.present ≡ true
      → entry_at vm.mem pgd (get_pgd_index x) (get_pt_index x) ≡ null_pte
      → (phy_frame ≡ 0 → (frame_alloc ok vm.frames).0 ≢ 0)
      → (address : ℕ) × ((pgd_insert ok vm pgd x pt_flags frm_flags phy_frame).0 ≡ pos 0)
        × IsPgd (pgd_insert ok vm pgd x pt_flags frm_flags phy_frame).1.mem pgd
        × Puts ok vm.frames
            (pgd_insert ok vm pgd x pt_flags frm_flags phy_frame).1.frames
            (entry_at vm.mem pgd (get_pgd_index x) (get_pt_index x))
            phy_frame
            address
        × ((k l : ℕ)
            → entry_at (pgd_insert ok vm pgd x pt_flags frm_flags phy_frame).1.mem pgd k l ≡ (
                if (k == get_pgd_index x) && (l == get_pt_index x)
                then record { address = address; flags = frm_flags }
                else entry_at vm.mem pgd k l))
  placed vm pgd x pt_flags frm_flags phy_frame nz s fresh present new frame_left =
      let (is, cases) =
        pgd_insert_lem ok vm pgd x pt_flags frm_flags phy_frame nz s (λ a. (fresh a).0)
          (or_present pt_flags.present frm_flags.present present) in
      elim cases [
        | inl (_, inl (a, none_left), _) ↦ absurd ((fresh a).1 none_left)
        | inl (_, inr (_, z, none_left), _) ↦ absurd (frame_left z none_left)
        | inr (address, r, puts, at) ↦ (address, r, is, puts, at)
      ]

  -- What leaves a page with an accessible entry.
  removed :
      (vm : Vm) (pgd x : ℕ) (delete_pt : Bool)
      → pgd ≢ 0
      → IsPgd vm.mem pgd
      → is_accessible (entry_at vm.mem pgd (get_pgd_index x) (get_pt_index x)) ≡ true
      → ((pt_entry_delete vm pgd x delete_pt).0
          ≡ (entry_at vm.mem pgd (get_pgd_index x) (get_pt_index x)).address)
        × IsPgd (pt_entry_delete vm pgd x delete_pt).1.mem pgd
        × ((k l : ℕ)
            → entry_at (pt_entry_delete vm pgd x delete_pt).1.mem pgd k l ≡ (
                if (k == get_pgd_index x) && (delete_pt || (l == get_pt_index x))
                then null_pte
                else entry_at vm.mem pgd k l))
        × ((pt_entry_delete vm pgd x delete_pt).1.frames ≡ vm.frames)
  removed vm pgd x delete_pt nz s a = elim (pt_entry_delete_lem vm pgd x delete_pt nz s) [
    | inl (gone, _) ↦ absurd (let both = sym gone ∙ a in ground arith)
    | inr (_, answer, is, at, _, frames) ↦ (answer, is, at, frames)
  ]

  move_frame_lem :
      (last_page_addr : ℕ) (vm : Vm) (pgd x : ℕ) (pt_flags frm_flags : Flags)
      → pgd ≢ 0
      → IsPgd vm.mem pgd
      → IsFresh vm pgd
      → (smemalign vm).0 ≢ 0
      → (frame_alloc ok vm.frames).0 ≢ 0
      → is_accessible (vm.mem pgd (get_pgd_index last_page_addr)) ≡ false
      → is_accessible (vm.mem pgd (get_pgd_index x)) ≡ true
      → is_accessible (entry_at vm.mem pgd (get_pgd_index x) (get_pt_index x)) ≡ true
      → frm_flags.present ≡ true
      → ((move_frame ok last_page_addr vm pgd x pt_flags frm_flags).0 ≡ pos 0)
        × IsPgd (move_frame ok last_page_addr vm pgd x pt_flags frm_flags).1.mem pgd
        × ((move_frame ok last_page_addr vm pgd x pt_flags frm_flags).1.frames
            ≡ (frame_alloc ok vm.frames).1)
        × ((k l : ℕ)
            → entry_at (move_frame ok last_page_addr vm pgd x pt_flags frm_flags).1.mem pgd k l ≡ (
                if (k == get_pgd_index x) && (l == get_pt_index x)
                then record { address = (frame_alloc ok vm.frames).0; flags = frm_flags }
                else entry_at vm.mem pgd k l))
  unfolding move_frame
  move_frame_lem last_page_addr vm pgd x pt_flags frm_flags nz s fresh page frame_left no_table
        table there present =
      let i = get_pgd_index x in
      let j = get_pt_index x in
      let il = get_pgd_index last_page_addr in
      let jl = get_pt_index last_page_addr in
      let apart : (i == il) ≡ false =
        ==_of_ne i il (λ q. let same = ap (λ k. is_accessible (vm.mem pgd k)) q in ground arith) in
      let apart' : (il == i) ≡ false = ==_of_ne il i (λ q. ne_of_== i il apart (sym q)) in
      let empty : (l : ℕ) → entry_at vm.mem pgd il l ≡ null_pte = λ l. rw no_table refl in
      let (a, r, is, puts, at) =
        placed vm pgd last_page_addr pt_flags frm_flags 0 nz s (λ _. (fresh, page)) present
          (empty jl) (λ _. frame_left) in
      let vm1 = (pgd_insert ok vm pgd last_page_addr pt_flags frm_flags 0).1 in
      let (is_a, a_nz, fr) = puts.taken (rw (empty jl) null-is_null) refl in
      let there1 : entry_at vm1.mem pgd i j ≡ entry_at vm.mem pgd i j = at i j ∙ rw apart refl in
      let table1 =
        pgd_insert-tables ok vm pgd last_page_addr pt_flags frm_flags 0 nz s (λ _. fresh)
          (or_present pt_flags.present frm_flags.present present) i table in
      let vm2 = (pt_entry_delete vm1 pgd x false).1 in
      let (_, is2, at2, fr2) = removed vm1 pgd x false nz is (rw there1 there) in
      let table2 : is_accessible (vm2.mem pgd i) ≡ true =
        rw (pt_entry_delete-tables vm1 pgd x nz is i) table1 in
      let e : Pte = record { address = a; flags = frm_flags } in
      let acc = accessible-pte a frm_flags a_nz present in
      let (_, not_null) = accessible-address e acc in
      let temp : entry_at vm2.mem pgd il jl ≡ e =
        at2 il jl ∙ rw apart' (at il jl ∙ rw (==_of_eq il il refl, ==_of_eq jl jl refl) refl) in
      let got : pgd_get_frm vm2 pgd last_page_addr ≡ a =
        (get_frm_lem vm2 pgd last_page_addr nz is2).0 ∙ rw (temp, not_null) refl in
      let new : entry_at vm2.mem pgd i j ≡ null_pte =
        at2 i j ∙ rw (==_of_eq i i refl, ==_of_eq j j refl) refl in
      let (a3, r3, is3, puts3, at3) =
        placed vm2 pgd x pt_flags frm_flags a nz is2
          (λ q. absurd (let both = sym q ∙ table2 in ground arith)) present new
          (λ z. absurd (a_nz z)) in
      let (same3, fr3) = puts3.given (rw new null-is_null) a_nz in
      let vm3 = (pgd_insert ok vm2 pgd x pt_flags frm_flags a).1 in
      let temp3 : entry_at vm3.mem pgd il jl ≡ e = at3 il jl ∙ rw apart' temp in
      let vm4 = (pt_entry_delete vm3 pgd last_page_addr true).1 in
      let (answer, is4, at4, fr4) = removed vm3 pgd last_page_addr true nz is3 (rw temp3 acc) in
      let freed : ((pt_entry_delete vm3 pgd last_page_addr true).0 == 0) ≡ false =
        ==_of_ne _ 0 (λ z. a_nz (sym (answer ∙ ap (λ p. p.address) temp3) ∙ z)) in
      let run : move_frame ok last_page_addr vm pgd x pt_flags frm_flags ≡ (pos 0, vm4) =
        rw (move_frame, r, got, r3, freed) refl in
      rw run (
        refl,
        is4,
        fr4 ∙ fr3 ∙ fr2 ∙ fr,
        λ k l. at4 k l ∙ elim (Bool-cases (k == il)) [
          | inl q ↦ rw (eq_of_== k il q, apart', ==_of_eq il il refl) (sym (empty l))
          | inr q ↦ rw q (
              at3 k l ∙ elim (Bool-cases (k == i)) [
                | inl p ↦ elim (Bool-cases (l == j)) [
                  | inl o ↦ rw (p, o, same3, is_a) refl
                  | inr o ↦ rw (p, o) (at2 k l ∙ rw (p, o) (at k l ∙ rw q refl))
                ]
                | inr p ↦ rw p (at2 k l ∙ rw p (at k l ∙ rw q refl))
              ])
        ],
      )

valid-nonzero : (user_mem_start pgd : ℕ) → pgd_check_valid user_mem_start pgd ≡ true → pgd ≢ 0
unfolding pgd_check_valid
valid-nonzero user_mem_start pgd valid z = ground arith

accessible-present : (e : Pte) → is_accessible e ≡ true → e.flags.present ≡ true
unfolding is_accessible
accessible-present e a = ground arith

still_present : (b : Bool) (f : Flags) → f.present ≡ true → (made_writable b f).present ≡ true
still_present true f h = h
still_present false f h = h

-- vm_frm_copy of a page whose frame has more than one reference, in a valid and well-formed directory
-- that has no table for LAST_PAGE_ADDR, when smemalign answers a page that the directory does not use
-- and a frame is free: it answers 0, the shared frame's count is set one lower, and a frame is
-- allocated. The page's entry is of the new frame, with its flags, writable when that is asked for;
-- every other entry of the directory is what it was, so that LAST_PAGE_ADDR has no entry again.
pub vm_frm_copy-shared :
    (ok : HtAllocs) (user_mem_start last_page_addr : ℕ) (vm : Vm) (pgd x : ℕ) (make_writable : Bool)
    (n : ℕ)
    → pgd_check_valid user_mem_start pgd ≡ true
    → IsPgd vm.mem pgd
    → IsFresh vm pgd
    → (smemalign vm).0 ≢ 0
    → is_accessible (vm.mem pgd (get_pgd_index last_page_addr)) ≡ false
    → is_accessible (vm.mem pgd (get_pgd_index x)) ≡ true
    → is_accessible (entry_at vm.mem pgd (get_pgd_index x) (get_pt_index x)) ≡ true
    → get_frame_refs vm.frames (entry_at vm.mem pgd (get_pgd_index x) (get_pt_index x)).address
      ≡ pos (suc (suc n))
    → (frame_alloc ok
        (set_frame_refs ok vm.frames
          (entry_at vm.mem pgd (get_pgd_index x) (get_pt_index x)).address
          (pos (suc n))).1).0
      ≢ 0
    → ((vm_frm_copy ok user_mem_start last_page_addr vm pgd x make_writable).0 ≡ pos 0)
      × IsPgd (vm_frm_copy ok user_mem_start last_page_addr vm pgd x make_writable).1.mem pgd
      × ((vm_frm_copy ok user_mem_start last_page_addr vm pgd x make_writable).1.frames
          ≡ (frame_alloc ok
              (set_frame_refs ok vm.frames
                (entry_at vm.mem pgd (get_pgd_index x) (get_pt_index x)).address
                (pos (suc n))).1).1)
      × ((k l : ℕ)
          → entry_at
              (vm_frm_copy ok user_mem_start last_page_addr vm pgd x make_writable).1.mem
              pgd
              k
              l
            ≡ (if (k == get_pgd_index x) && (l == get_pt_index x)
                then record {
                  address =
                      (frame_alloc ok
                        (set_frame_refs ok vm.frames
                          (entry_at vm.mem pgd (get_pgd_index x) (get_pt_index x)).address
                          (pos (suc n))).1).0;
                  flags =
                      made_writable make_writable
                        (entry_at vm.mem pgd (get_pgd_index x) (get_pt_index x)).flags;
                }
                else entry_at vm.mem pgd k l))
unfolding vm_frm_copy
vm_frm_copy-shared ok user_mem_start last_page_addr vm pgd x make_writable n valid s fresh page
      no_table table there refs frame_left =
    let i = get_pgd_index x in
    let j = get_pt_index x in
    let e = vm.mem (vm.mem pgd i).address j in
    let here : entry_at vm.mem pgd i j ≡ e = rw table refl in
    let count : get_frame_refs vm.frames e.address ≡ pos (suc (suc n)) =
      ap (λ p. get_frame_refs vm.frames p.address) (sym here) ∙ refs in
    let lowered = (set_frame_refs ok vm.frames e.address (pos (suc n))).1 in
    let shared : Vm = record vm { frames = lowered } in
    let (_, null) = accessible-address (vm.mem pgd i) table in
    let more : (suc (suc n) == 1) ≡ false =
      ==_of_ne (suc (suc n)) 1 (λ z. let p : suc (suc n) ≡ 1 = z in omega arith) in
    let run : vm_frm_copy ok user_mem_start last_page_addr vm pgd x make_writable
        ≡ move_frame ok last_page_addr shared pgd x
            (made_writable make_writable (vm.mem pgd i).flags)
            (made_writable make_writable e.flags) =
      rw (vm_frm_copy, valid, null, count, more) refl in
    let there' : is_accessible e ≡ true = rw (sym here) there in
    let present : e.flags.present ≡ true = accessible-present e there' in
    let same : lowered
        ≡ (set_frame_refs ok vm.frames (entry_at vm.mem pgd i j).address (pos (suc n))).1 =
      ap (λ p. (set_frame_refs ok vm.frames p.address (pos (suc n))).1) (sym here) in
    let (r, is, fr, at) =
      move_frame_lem ok last_page_addr shared pgd x
        (made_writable make_writable (vm.mem pgd i).flags) (made_writable make_writable e.flags)
        (valid-nonzero user_mem_start pgd valid) s (IsFresh-frames vm lowered pgd fresh)
        (rw (smemalign-frames vm lowered) page)
        (subst (λ f. (frame_alloc ok f).0 ≢ 0) (sym same) frame_left) no_table table there
        (still_present make_writable e.flags present) in
    rw run (
      r,
      is,
      fr ∙ ap (λ f. (frame_alloc ok f).1) same,
      λ k l.
          at k l
          ∙ ap
              (λ p.
                if (k == i) && (l == j)
                then record {
                  address =
                      (frame_alloc ok (set_frame_refs ok vm.frames p.address (pos (suc n))).1).0;
                  flags = made_writable make_writable p.flags;
                }
                else entry_at vm.mem pgd k l)
              (sym here),
    )
