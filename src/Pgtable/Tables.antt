-- ===== src/Pgtable/Tables.antt =====
-- pgtable.c's check_and_alloc_pt: the tables of a directory.
use unix_kernel.Base.{
  ℕ, ◌≡◌, ◌≢◌, refl, sym, ap, subst, ◌∙◌, ◌⊎◌, inl, inr, true, false, Bool-cases, ◌||◌, arith, ◌==◌,
  eq_of_==, ne_of_==, ==_of_eq, ==_of_ne, List, [], ◌∷◌,
}
use unix_kernel.Frame.{Frames}
use unix_kernel.Pgtable.{
  Flags, Pte, Vm, null_pte, or_flags, is_accessible, store, clear, smemalign, lower_privilege,
  check_and_alloc_pt,
}
use unix_kernel.Pgtable.View.{
  entry_at, IsPgd, store_self, store-other_index, accessible-address, IsPgd-same, set_table,
}

List-cases : (xs : List ℕ) → (xs ≡ []) ⊎ ((x : ℕ) × (ys : List ℕ) × (xs ≡ x ∷ ys))
List-cases [] = inl refl
List-cases (x ∷ ys) = inr (x, ys, refl)

-- The frames do not matter to smemalign.
pub smemalign-frames :
    (vm : Vm) (fr : Frames) → (smemalign (record vm { frames = fr })).0 ≡ (smemalign vm).0
unfolding smemalign
smemalign-frames vm fr = elim (List-cases vm.smem) [
  | inl e ↦ rw (smemalign, e) refl
  | inr (page, left, e) ↦ rw (smemalign, e) refl
]

pub smemalign-keeps :
    (vm : Vm) → ((smemalign vm).1.mem ≡ vm.mem) × ((smemalign vm).1.frames ≡ vm.frames)
unfolding smemalign
smemalign-keeps vm = elim (List-cases vm.smem) [
  | inl e ↦ (rw (smemalign, e) refl, rw (smemalign, e) refl)
  | inr (page, left, e) ↦ (rw (smemalign, e) refl, rw (smemalign, e) refl)
]

-- The page that smemalign answers next is neither the directory nor one of its tables.
pub record IsFresh (vm : Vm) (pgd : ℕ) : Type 0 where
  pub no_pgd : (smemalign vm).0 ≢ pgd
  pub no_table :
      (k : ℕ) → is_accessible (vm.mem pgd k) ≡ true → (vm.mem pgd k).address ≢ (smemalign vm).0

pub IsFresh-frames :
    (vm : Vm) (fr : Frames) (pgd : ℕ) → IsFresh vm pgd → IsFresh (record vm { frames = fr }) pgd
IsFresh-frames vm fr pgd fresh = record {
  no_pgd = rw (smemalign-frames vm fr) fresh.no_pgd;
  no_table = λ k a. rw (smemalign-frames vm fr) (fresh.no_table k a);
}

clear-keeps :
    (mem : (table index : ℕ) → Pte) (page t j : ℕ) → t ≢ page → clear mem page t j ≡ mem t j
unfolding clear
clear-keeps mem page t j ne = rw (==_of_ne t page ne) refl

clear-null : (mem : (table index : ℕ) → Pte) (page j : ℕ) → clear mem page page j ≡ null_pte
unfolding clear
clear-null mem page j = rw (==_of_eq page page refl) refl

-- A page that is set to 0 and put into the directory at an index without a table.
new_table :
    (mem : (table index : ℕ) → Pte) (pgd i page : ℕ) (flags : Flags)
    → IsPgd mem pgd
    → is_accessible (mem pgd i) ≡ false
    → flags.present ≡ true
    → page ≢ 0
    → page ≢ pgd
    → ((k : ℕ) → is_accessible (mem pgd k) ≡ true → (mem pgd k).address ≢ page)
    → IsPgd (store (clear mem page) pgd i (record { address = page; flags = flags })) pgd
      × ((k l : ℕ)
          → entry_at
              (store (clear mem page) pgd i (record { address = page; flags = flags }))
              pgd
              k
              l
            ≡ entry_at mem pgd k l)
unfolding is_accessible
new_table mem pgd i page flags s a present nz ne others =
    let e : Pte = record { address = page; flags = flags } in
    let same : (k : ℕ) → clear mem page pgd k ≡ mem pgd k =
      λ k. clear-keeps mem page pgd k (λ q. ne (sym q)) in
    let acc : is_accessible e ≡ true = rw (==_of_ne page 0 nz, present) refl in
    let (is, at) =
      set_table (clear mem page) pgd i e (IsPgd-same mem (clear mem page) pgd same s) acc ne
        (λ k _ ak q.
          others k (subst (λ x. is_accessible x ≡ true) (same k) ak)
            (ap (λ x. x.address) (sym (same k)) ∙ q)) in
    (
      is,
      λ k l. at k l ∙ elim (Bool-cases (k == i)) [
        | inl q ↦ rw (q, eq_of_== k i q, a) (clear-null mem page l)
        | inr q ↦ elim (Bool-cases (is_accessible (mem pgd k))) [
          | inl ak ↦ rw (q, same k, ak) (clear-keeps mem page (mem pgd k).address l (others k ak))
          | inr ak ↦ rw (q, same k, ak) refl
        ]
      ],
    )

-- A table that is there gets more flags.
more_flags :
    (mem : (table index : ℕ) → Pte) (pgd i : ℕ) (flags : Flags)
    → IsPgd mem pgd
    → is_accessible (mem pgd i) ≡ true
    → IsPgd (store mem pgd i (record (mem pgd i) { flags = or_flags (mem pgd i).flags flags })) pgd
      × (is_accessible (record (mem pgd i) { flags = or_flags (mem pgd i).flags flags }) ≡ true)
      × ((k l : ℕ)
          → entry_at
              (store mem pgd i (record (mem pgd i) { flags = or_flags (mem pgd i).flags flags }))
              pgd
              k
              l
            ≡ entry_at mem pgd k l)
unfolding is_accessible
more_flags mem pgd i flags s a =
    let acc : is_accessible (record (mem pgd i) { flags = or_flags (mem pgd i).flags flags })
        ≡ true =
      ground arith in
    let (is, at) =
      set_table mem pgd i (record (mem pgd i) { flags = or_flags (mem pgd i).flags flags }) s acc
        (s.apart i a) (λ k ne ak q. ne (s.distinct k i ak a q)) in
    (
      is,
      acc,
      λ k l. at k l ∙ elim (Bool-cases (k == i)) [
        | inl q ↦ rw (q, eq_of_== k i q, a) refl
        | inr q ↦ rw q refl
      ],
    )

-- What check_and_alloc_pt leaves when it has found or made a table.
pub record Provides (vm vm' : Vm) (pgd i pt : ℕ) : Type 0 where
  pub table : is_accessible (vm'.mem pgd i) ≡ true
  pub at : (vm'.mem pgd i).address ≡ pt
  pub is_pgd : IsPgd vm'.mem pgd
  pub entries : (k l : ℕ) → entry_at vm'.mem pgd k l ≡ entry_at vm.mem pgd k l
  pub tables : (k : ℕ) → is_accessible (vm.mem pgd k) ≡ true → is_accessible (vm'.mem pgd k) ≡ true
  pub frames : vm'.frames ≡ vm.frames

-- For flags that make a page present, check_and_alloc_pt answers NULL exactly when the directory has
-- no table at the index and smemalign answers NULL; else it answers the table's address. All entries
-- are what they were.
pub check_and_alloc_pt_lem :
    (vm : Vm) (pgd i : ℕ) (pt_flags frm_flags : Flags)
    → IsPgd vm.mem pgd
    → (is_accessible (vm.mem pgd i) ≡ false → IsFresh vm pgd)
    → (pt_flags.present || frm_flags.present) ≡ true
    → (((check_and_alloc_pt vm pgd i pt_flags frm_flags).0 ≡ 0)
        × (is_accessible (vm.mem pgd i) ≡ false)
        × ((smemalign vm).0 ≡ 0)
        × ((check_and_alloc_pt vm pgd i pt_flags frm_flags).1.mem ≡ vm.mem))
      ⊎ (((check_and_alloc_pt vm pgd i pt_flags frm_flags).0 ≢ 0)
          × Provides vm
              (check_and_alloc_pt vm pgd i pt_flags frm_flags).1
              pgd
              i
              (check_and_alloc_pt vm pgd i pt_flags frm_flags).0)
unfolding check_and_alloc_pt is_accessible
check_and_alloc_pt_lem vm pgd i pt_flags frm_flags s fresh present =
    elim (Bool-cases (is_accessible (vm.mem pgd i))) [
      | inl a ↦
          let (is, acc, at) = more_flags vm.mem pgd i (lower_privilege pt_flags frm_flags) s a in
          let (nz, _) = accessible-address (vm.mem pgd i) a in
          let self = store_self vm.mem pgd i (record (vm.mem pgd i) {
            flags = or_flags (vm.mem pgd i).flags (lower_privilege pt_flags frm_flags);
          }) in
          inr (
            rw (check_and_alloc_pt, a) nz,
            rw (check_and_alloc_pt, a)
                (record {
                  table = rw self acc;
                  at = ap (λ x. x.address) self;
                  is_pgd = is;
                  entries = at;
                  tables = λ k ak. elim (Bool-cases (k == i)) [
                    | inl q ↦ rw (eq_of_== k i q, self) acc
                    | inr q ↦
                        rw
                          (store-other_index vm.mem pgd i
                            (record (vm.mem pgd i) {
                              flags =
                                  or_flags (vm.mem pgd i).flags
                                    (lower_privilege pt_flags frm_flags);
                            })
                            pgd k (ne_of_== k i q))
                          ak
                  ];
                  frames = refl;
                }),
          )
      | inr a ↦
          let (mem, frames) = smemalign-keeps vm in
          elim (Bool-cases ((smemalign vm).0 == 0)) [
            | inl z ↦ inl (
              rw (check_and_alloc_pt, a, z) refl,
              a,
              eq_of_== _ 0 z,
              rw (check_and_alloc_pt, a, z) mem,
            )
            | inr z ↦
                let nz = ne_of_== (smemalign vm).0 0 z in
                let e : Pte = record {
                  address = (smemalign vm).0;
                  flags = lower_privilege pt_flags frm_flags;
                } in
                let (is, at) =
                  new_table vm.mem pgd i (smemalign vm).0 (lower_privilege pt_flags frm_flags) s a
                    present nz (fresh a).no_pgd (fresh a).no_table in
                let self = store_self (clear vm.mem (smemalign vm).0) pgd i e in
                inr (
                  rw (check_and_alloc_pt, a, z) nz,
                  rw (check_and_alloc_pt, a, z, mem)
                      (record {
                        table = rw (self, z, present) refl;
                        at = ap (λ x. x.address) self;
                        is_pgd = is;
                        entries = at;
                        tables = λ k ak. elim (Bool-cases (k == i)) [
                          | inl q ↦ absurd (
                              let same = ap (λ x. is_accessible (vm.mem pgd x)) (eq_of_== k i q) in
                              ground arith)
                          | inr q ↦
                              rw
                                (
                                  store-other_index (clear vm.mem (smemalign vm).0) pgd i e pgd k
                                      (ne_of_== k i q),
                                  clear-keeps vm.mem (smemalign vm).0 pgd k
                                      (λ x. (fresh a).no_pgd (sym x)),
                                )
                                ak
                        ];
                        frames = frames;
                      }),
                )
          ]
    ]
