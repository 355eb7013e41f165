-- ===== src/Pgtable/Insert.antt =====
-- pgtable.c's pgd_insert on the entries of a directory.
use unix_kernel.Base.{
  ℕ, ◌≡◌, ◌≢◌, refl, sym, subst, ◌∙◌, ◌⊎◌, inl, inr, true, false, Bool-cases, ◌&&◌, ◌||◌, arith,
  ◌==◌, if◌then◌else◌, eq_of_==, ne_of_==, ==_of_eq, ==_of_ne, pos, minus_one,
}
use unix_kernel.Frame.{Frames, HtAllocs, frame_alloc}
use unix_kernel.Pgtable.{
  Flags, Pte, Vm, is_null, is_accessible, store, smemalign, check_and_alloc_pt, insert_pte,
  pgd_insert, get_pgd_index, get_pt_index,
}
use unix_kernel.Pgtable.View.{entry_at, IsPgd, set_entry, store-other_table}
use unix_kernel.Pgtable.Tables.{IsFresh, Provides, check_and_alloc_pt_lem}

module _ (ok : HtAllocs) where
  -- The frame that pgd_insert puts where the entry was `old`, and the frames that it leaves.
  pub record Puts (frames frames' : Frames) (old : Pte) (phy_frame address : ℕ) : Type 0 where
    pub kept : is_null old ≡ false → (address ≡ old.address) × (frames' ≡ frames)
    pub given : is_null old ≡ true → phy_frame ≢ 0 → (address ≡ phy_frame) × (frames' ≡ frames)
    pub taken :
        is_null old ≡ true
        → phy_frame ≡ 0
        → (address ≡ (frame_alloc ok frames).0)
          × (address ≢ 0)
          × (frames' ≡ (frame_alloc ok frames).1)

  Puts-moved :
      {fr moved frames' : Frames} {old there : Pte} (phy_frame address : ℕ)
      → fr ≡ moved
      → old ≡ there
      → Puts fr frames' old phy_frame address
      → Puts moved frames' there phy_frame address
  Puts-moved {moved = moved} {frames' = frames'} {old = old} phy_frame address e q puts =
      subst (λ o. Puts moved frames' o phy_frame address) q
        (subst (λ fr. Puts fr frames' old phy_frame address) e puts)

  insert_pte_lem :
      (vm : Vm) (pgd i j : ℕ) (flags : Flags) (phy_frame : ℕ)
      → IsPgd vm.mem pgd
      → is_accessible (vm.mem pgd i) ≡ true
      → ((is_null (vm.mem (vm.mem pgd i).address j) ≡ true)
          × (phy_frame ≡ 0)
          × ((frame_alloc ok vm.frames).0 ≡ 0)
          × ((insert_pte ok vm (vm.mem pgd i).address j flags phy_frame).0 ≡ minus_one)
          × ((insert_pte ok vm (vm.mem pgd i).address j flags phy_frame).1.mem ≡ vm.mem)
          × ((insert_pte ok vm (vm.mem pgd i).address j flags phy_frame).1.frames
              ≡ (frame_alloc ok vm.frames).1))
        ⊎ ((address : ℕ) × ((insert_pte ok vm (vm.mem pgd i).address j flags phy_frame).0 ≡ pos 0)
            × ((insert_pte ok vm (vm.mem pgd i).address j flags phy_frame).1.mem
                ≡ store vm.mem
                    (vm.mem pgd i).address
                    j
                    (record { address = address; flags = flags }))
            × Puts vm.frames
                (insert_pte ok vm (vm.mem pgd i).address j flags phy_frame).1.frames
                (vm.mem (vm.mem pgd i).address j)
                phy_frame
                address)
  unfolding insert_pte
  insert_pte_lem vm pgd i j flags phy_frame s a =
      let old = vm.mem (vm.mem pgd i).address j in
      elim (Bool-cases (is_null old)) [
        | inr n ↦ inr (
          old.address,
          rw (insert_pte, n) refl,
          rw (insert_pte, n) refl,
          rw (insert_pte, n)
              (record {
                kept = λ _. (refl, refl);
                given = λ z. absurd (ground arith);
                taken = λ z. absurd (ground arith);
              }),
        )
        | inl n ↦ elim (Bool-cases (phy_frame == 0)) [
          | inr p ↦ inr (
            phy_frame,
            rw (insert_pte, n, p) refl,
            rw (insert_pte, n, p) refl,
            rw (insert_pte, n, p)
                (record {
                  kept = λ z. absurd (ground arith);
                  given = λ _ _. (refl, refl);
                  taken = λ _ z. absurd (ne_of_== phy_frame 0 p z);
                }),
          )
          | inl p ↦ elim (Bool-cases ((frame_alloc ok vm.frames).0 == 0)) [
            | inl z ↦ inl (
              n,
              eq_of_== phy_frame 0 p,
              eq_of_== _ 0 z,
              rw (insert_pte, n, p, z) refl,
              rw (insert_pte, n, p, z) refl,
              rw (insert_pte, n, p, z) refl,
            )
            | inr z ↦ inr (
              (frame_alloc ok vm.frames).0,
              rw (insert_pte, n, p, z) refl,
              rw (insert_pte, n, p, z) refl,
              rw (insert_pte, n, p, z)
                  (record {
                    kept = λ q. absurd (ground arith);
                    given = λ _ q. absurd (q (eq_of_== phy_frame 0 p));
                    taken = λ _ _. (refl, ne_of_== _ 0 z, refl);
                  }),
            )
          ]
        ]
      ]

  -- pgd_insert once check_and_alloc_pt has answered a table.
  with_table :
      (vm : Vm) (pgd x : ℕ) (pt_flags frm_flags : Flags) (phy_frame : ℕ)
      → pgd ≢ 0
      → (check_and_alloc_pt vm pgd (get_pgd_index x) pt_flags frm_flags).0 ≢ 0
      → Provides vm
          (check_and_alloc_pt vm pgd (get_pgd_index x) pt_flags frm_flags).1
          pgd
          (get_pgd_index x)
          (check_and_alloc_pt vm pgd (get_pgd_index x) pt_flags frm_flags).0
      → pgd_insert ok vm pgd x pt_flags frm_flags phy_frame
        ≡ insert_pte ok
            (check_and_alloc_pt vm pgd (get_pgd_index x) pt_flags frm_flags).1
            ((check_and_alloc_pt vm pgd (get_pgd_index x) pt_flags frm_flags).1.mem pgd
              (get_pgd_index x)).address
            (get_pt_index x)
            frm_flags
            phy_frame
  unfolding pgd_insert
  with_table vm pgd x pt_flags frm_flags phy_frame nz pt p =
      rw (pgd_insert, ==_of_ne pgd 0 nz, ==_of_ne _ 0 pt, p.at) refl

  -- pgd_insert once it has answered NULL.
  no_table :
      (vm : Vm) (pgd x : ℕ) (pt_flags frm_flags : Flags) (phy_frame : ℕ)
      → pgd ≢ 0
      → (check_and_alloc_pt vm pgd (get_pgd_index x) pt_flags frm_flags).0 ≡ 0
      → pgd_insert ok vm pgd x pt_flags frm_flags phy_frame
        ≡ (minus_one, (check_and_alloc_pt vm pgd (get_pgd_index x) pt_flags frm_flags).1)
  unfolding pgd_insert
  no_table vm pgd x pt_flags frm_flags phy_frame nz z =
      rw (pgd_insert, ==_of_ne pgd 0 nz, ==_of_eq _ 0 z) refl

  -- pgd_insert into a well-formed directory, with flags that make the page present, and smemalign
  -- answering no page that the directory uses when the page has no table. It answers -1, and changes no entry, when the
  -- page has no table and smemalign answers NULL, or when the page has no entry, no frame is given
  -- and frame_alloc answers NULL. Else it answers 0: the page's entry has the flags, and the
  -- address of the frame that it had, else of the given one, else of the one frame_alloc answers;
  -- every other entry of the directory is what it was. The directory stays well formed.
  pub pgd_insert_lem :
      (vm : Vm) (pgd x : ℕ) (pt_flags frm_flags : Flags) (phy_frame : ℕ)
      → pgd ≢ 0
      → IsPgd vm.mem pgd
      → (is_accessible (vm.mem pgd (get_pgd_index x)) ≡ false → IsFresh vm pgd)
      → (pt_flags.present || frm_flags.present) ≡ true
      → IsPgd (pgd_insert ok vm pgd x pt_flags frm_flags phy_frame).1.mem pgd
        × ((((pgd_insert ok vm pgd x pt_flags frm_flags phy_frame).0 ≡ minus_one)
              × (((is_accessible (vm.mem pgd (get_pgd_index x)) ≡ false) × ((smemalign vm).0 ≡ 0))
                  ⊎ ((is_null (entry_at vm.mem pgd (get_pgd_index x) (get_pt_index x)) ≡ true)
                      × (phy_frame ≡ 0)
                      × ((frame_alloc ok vm.frames).0 ≡ 0)))
              × ((k l : ℕ)
                  → entry_at (pgd_insert ok vm pgd x pt_flags frm_flags phy_frame).1.mem pgd k l
                    ≡ entry_at vm.mem pgd k l))
            ⊎ ((address : ℕ) × ((pgd_insert ok vm pgd x pt_flags frm_flags phy_frame).0 ≡ pos 0)
                × Puts vm.frames
                    (pgd_insert ok vm pgd x pt_flags frm_flags phy_frame).1.frames
                    (entry_at vm.mem pgd (get_pgd_index x) (get_pt_index x))
                    phy_frame
                    address
                × ((k l : ℕ)
                    → entry_at (pgd_insert ok vm pgd x pt_flags frm_flags phy_frame).1.mem pgd k l
                      ≡ (if (k == get_pgd_index x) && (l == get_pt_index x)
                          then record { address = address; flags = frm_flags }
                          else entry_at vm.mem pgd k l))))
  pgd_insert_lem vm pgd x pt_flags frm_flags phy_frame nz s fresh present =
      let i = get_pgd_index x in
      let j = get_pt_index x in
      elim (check_and_alloc_pt_lem vm pgd i pt_flags frm_flags s fresh present) [
        | inl (z, a, no_page, mem) ↦
            let run = no_table vm pgd x pt_flags frm_flags phy_frame nz z in
            rw run (rw mem s, inl (refl, inl (a, no_page), λ k l. rw mem refl))
        | inr (pt, p) ↦
            let vm' = (check_and_alloc_pt vm pgd i pt_flags frm_flags).1 in
            let run = with_table vm pgd x pt_flags frm_flags phy_frame nz pt p in
            let here : vm'.mem (vm'.mem pgd i).address j ≡ entry_at vm.mem pgd i j =
              rw (sym (p.entries i j)) rw p.table refl in
            elim (insert_pte_lem vm' pgd i j frm_flags phy_frame p.is_pgd p.table) [
              | inl (n, no_frame, none_left, r, mem, _) ↦ rw run (
                rw mem p.is_pgd,
                inl (
                  r,
                  inr (rw (sym here) n, no_frame, rw (sym p.frames) none_left),
                  λ k l. rw mem (p.entries k l),
                ),
              )
              | inr (address, r, mem, puts) ↦
                  let (is, at) =
                    set_entry vm'.mem pgd i j (record { address = address; flags = frm_flags })
                      p.is_pgd p.table in
                  rw run (
                    rw mem is,
                    inr (
                      address,
                      r,
                      Puts-moved phy_frame address p.frames here puts,
                      λ k l. rw mem (at k l ∙ rw (p.entries k l) refl),
                    ),
                  )
            ]
      ]

  -- pgd_insert takes no table out.
  pub pgd_insert-tables :
      (vm : Vm) (pgd x : ℕ) (pt_flags frm_flags : Flags) (phy_frame : ℕ)
      → pgd ≢ 0
      → IsPgd vm.mem pgd
      → (is_accessible (vm.mem pgd (get_pgd_index x)) ≡ false → IsFresh vm pgd)
      → (pt_flags.present || frm_flags.present) ≡ true
      → (k : ℕ) → is_accessible (vm.mem pgd k) ≡ true
      → is_accessible ((pgd_insert ok vm pgd x pt_flags frm_flags phy_frame).1.mem pgd k) ≡ true
  pgd_insert-tables vm pgd x pt_flags frm_flags phy_frame nz s fresh present k a =
      let i = get_pgd_index x in
      let j = get_pt_index x in
      elim (check_and_alloc_pt_lem vm pgd i pt_flags frm_flags s fresh present) [
        | inl (z, _, _, mem) ↦ rw (no_table vm pgd x pt_flags frm_flags phy_frame nz z, mem) a
        | inr (pt, p) ↦
            let vm' = (check_and_alloc_pt vm pgd i pt_flags frm_flags).1 in
            let run = with_table vm pgd x pt_flags frm_flags phy_frame nz pt p in
            elim (insert_pte_lem vm' pgd i j frm_flags phy_frame p.is_pgd p.table) [
              | inl (_, _, _, _, mem, _) ↦ rw (run, mem) (p.tables k a)
              | inr (address, _, mem, _) ↦
                  rw
                    (
                      run,
                      mem,
                      store-other_table vm'.mem (vm'.mem pgd i).address j
                          (record { address = address; flags = frm_flags }) pgd k
                          (λ q. p.is_pgd.apart i p.table (sym q)),
                    )
                    (p.tables k a)
            ]
      ]
