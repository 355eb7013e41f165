-- ===== src/Pgtable/View.antt =====
-- A directory and its tables as one table of entries, by directory index and table index.
use unix_kernel.Base.{
  ℕ, ◌≡◌, ◌≢◌, refl, sym, ap, ◌∙◌, ◌⊎◌, inl, inr, true, false, Bool-cases, ◌&&◌, arith, ◌==◌,
  if◌then◌else◌, eq_of_==, ne_of_==, ==_of_eq, ==_of_ne,
}
use unix_kernel.Pgtable.{
  Flags, Pte, Vm, null_pte, is_null, is_accessible, store, pgd_get_frm, pgd_get_frmflags,
  get_pgd_index, get_pt_index,
}

-- The entry of a page, NULL when it has no table.
abbrev pub entry_at : ((table index : ℕ) → Pte) → (pgd i j : ℕ) → Pte
entry_at mem pgd i j = if is_accessible (mem pgd i) then mem (mem pgd i).address j else null_pte

-- The entries of a directory are NULL or present tables; no two indices share a table, and no table
-- is the directory.
pub record IsPgd (mem : (table index : ℕ) → Pte) (pgd : ℕ) : Type 0 where
  pub clean : (i : ℕ) → (is_accessible (mem pgd i) ≡ true) ⊎ (mem pgd i ≡ null_pte)
  pub distinct :
      (i k : ℕ)
      → is_accessible (mem pgd i) ≡ true
      → is_accessible (mem pgd k) ≡ true
      → (mem pgd i).address ≡ (mem pgd k).address
      → i ≡ k
  pub apart : (i : ℕ) → is_accessible (mem pgd i) ≡ true → (mem pgd i).address ≢ pgd

pub store_self : (mem : (table index : ℕ) → Pte) (t i : ℕ) (e : Pte) → store mem t i e t i ≡ e
unfolding store
store_self mem t i e = rw (==_of_eq t t refl, ==_of_eq i i refl) refl

pub store-other_table :
    (mem : (table index : ℕ) → Pte) (t i : ℕ) (e : Pte) (u j : ℕ)
    → u ≢ t
    → store mem t i e u j ≡ mem u j
unfolding store
store-other_table mem t i e u j ne = rw (==_of_ne u t ne) refl

pub store-other_index :
    (mem : (table index : ℕ) → Pte) (t i : ℕ) (e : Pte) (u j : ℕ)
    → j ≢ i
    → store mem t i e u j ≡ mem u j
unfolding store
store-other_index mem t i e u j ne = elim (Bool-cases (u == t)) [
  | inl q ↦ rw (q, ==_of_ne j i ne) refl
  | inr q ↦ rw q refl
]

pub accessible-address : (e : Pte) → is_accessible e ≡ true → (e.address ≢ 0) × (is_null e ≡ false)
unfolding is_accessible is_null
accessible-address e h = (ground arith, ground arith)

pub not-accessible-null : is_accessible null_pte ≡ false
unfolding is_accessible
not-accessible-null = refl

-- What pgd_get_frm and pgd_get_frmflags read of a well-formed directory.
pub get_frm_lem :
    (vm : Vm) (pgd x : ℕ)
    → pgd ≢ 0
    → IsPgd vm.mem pgd
    → (pgd_get_frm vm pgd x ≡ (
        if is_null (entry_at vm.mem pgd (get_pgd_index x) (get_pt_index x))
        then 0
        else (entry_at vm.mem pgd (get_pgd_index x) (get_pt_index x)).address))
      × (pgd_get_frmflags vm pgd x ≡ (entry_at vm.mem pgd (get_pgd_index x) (get_pt_index x)).flags)
unfolding pgd_get_frm pgd_get_frmflags is_null
get_frm_lem vm pgd x ne s =
    let nz = ==_of_ne pgd 0 ne in
    let none_there = not-accessible-null in
    elim (s.clean (get_pgd_index x)) [
      | inl a ↦
          let (_, n) = accessible-address (vm.mem pgd (get_pgd_index x)) a in
          (rw (pgd_get_frm, nz, n, a) refl, rw (pgd_get_frmflags, nz, n, a) refl)
      | inr e ↦
          (rw (pgd_get_frm, nz, e, none_there) refl, rw (pgd_get_frmflags, nz, e, none_there) refl)
    ]

-- Only what the directory itself holds matters.
pub IsPgd-same :
    (mem mem' : (table index : ℕ) → Pte) (pgd : ℕ)
    → ((k : ℕ) → mem' pgd k ≡ mem pgd k)
    → IsPgd mem pgd
    → IsPgd mem' pgd
IsPgd-same mem mem' pgd same s = record {
  clean = λ i. rw (same i) (s.clean i);
  distinct = λ i k. rw (same i, same k) (s.distinct i k);
  apart = λ i. rw (same i) (s.apart i);
}

-- A write into the table at the index `i`.
pub set_entry :
    (mem : (table index : ℕ) → Pte) (pgd i j : ℕ) (e : Pte)
    → IsPgd mem pgd
    → is_accessible (mem pgd i) ≡ true
    → IsPgd (store mem (mem pgd i).address j e) pgd
      × ((k l : ℕ)
          → entry_at (store mem (mem pgd i).address j e) pgd k l
            ≡ (if (k == i) && (l == j) then e else entry_at mem pgd k l))
set_entry mem pgd i j e s a =
    let same : (k : ℕ) → store mem (mem pgd i).address j e pgd k ≡ mem pgd k =
      λ k. store-other_table mem (mem pgd i).address j e pgd k (λ q. s.apart i a (sym q)) in
    (
      IsPgd-same mem _ pgd same s,
      λ k l. elim (Bool-cases (is_accessible (mem pgd k))) [
        | inl ak ↦
            rw (same k, ak)
              (elim (Bool-cases (k == i)) [
                | inl q ↦ elim (Bool-cases (l == j)) [
                  | inl p ↦
                      rw (q, p, eq_of_== k i q, eq_of_== l j p)
                        (store_self mem (mem pgd i).address j e)
                  | inr p ↦
                      rw (q, p, eq_of_== k i q)
                        (store-other_index mem (mem pgd i).address j e (mem pgd i).address l
                          (ne_of_== l j p))
                ]
                | inr q ↦ rw q (
                    store-other_table mem (mem pgd i).address j e (mem pgd k).address l
                      (λ x. ne_of_== k i q (s.distinct k i ak a x)))
              ])
        | inr ak ↦
            let ne : (k == i) ≡ false =
              ==_of_ne k i
                (λ q. let same_entry = ap (λ x. is_accessible (mem pgd x)) q in ground arith) in
            rw (same k, ak, ne) refl
      ],
    )

-- A write into the directory of a table that no other index has.
pub set_table :
    (mem : (table index : ℕ) → Pte) (pgd i : ℕ) (e : Pte)
    → IsPgd mem pgd
    → is_accessible e ≡ true
    → e.address ≢ pgd
    → ((k : ℕ) → k ≢ i → is_accessible (mem pgd k) ≡ true → (mem pgd k).address ≢ e.address)
    → IsPgd (store mem pgd i e) pgd
      × ((k l : ℕ)
          → entry_at (store mem pgd i e) pgd k l
            ≡ (if k == i then mem e.address l else entry_at mem pgd k l))
set_table mem pgd i e s a ne others =
    let other : (k : ℕ) → k ≢ i → store mem pgd i e pgd k ≡ mem pgd k =
      λ k. store-other_index mem pgd i e pgd k in
    let self = store_self mem pgd i e in
    (
      record {
        clean = λ k. elim (Bool-cases (k == i)) [
          | inl q ↦ rw (eq_of_== k i q, self) (inl a)
          | inr q ↦ rw (other k (ne_of_== k i q)) (s.clean k)
        ];
        distinct = λ k l. elim (Bool-cases (k == i)) [
          | inl q ↦ elim (Bool-cases (l == i)) [
            | inl p ↦ λ ak al x. eq_of_== k i q ∙ sym (eq_of_== l i p)
            | inr p ↦
                rw (eq_of_== k i q, self, other l (ne_of_== l i p))
                  (λ ak al x. absurd (others l (ne_of_== l i p) al (sym x)))
          ]
          | inr q ↦ elim (Bool-cases (l == i)) [
            | inl p ↦
                rw (eq_of_== l i p, self, other k (ne_of_== k i q))
                  (λ ak al x. absurd (others k (ne_of_== k i q) ak x))
            | inr p ↦ rw (other k (ne_of_== k i q), other l (ne_of_== l i p)) (s.distinct k l)
          ]
        ];
        apart = λ k. elim (Bool-cases (k == i)) [
          | inl q ↦ rw (eq_of_== k i q, self) (λ ak. ne)
          | inr q ↦ rw (other k (ne_of_== k i q)) (s.apart k)
        ];
      },
      λ k l. elim (Bool-cases (k == i)) [
        | inl q ↦ rw (q, eq_of_== k i q, self, a) (store-other_table mem pgd i e e.address l ne)
        | inr q ↦ elim (Bool-cases (is_accessible (mem pgd k))) [
          | inl ak ↦
              rw (q, other k (ne_of_== k i q), ak)
                (store-other_table mem pgd i e (mem pgd k).address l (s.apart k ak))
          | inr ak ↦ rw (q, other k (ne_of_== k i q), ak) refl
        ]
      ],
    )

pub null-is_null : is_null null_pte ≡ true
unfolding is_null
null-is_null = refl

pub accessible-pte :
    (a : ℕ) (flags : Flags)
    → a ≢ 0
    → flags.present ≡ true
    → is_accessible (record { address = a; flags = flags }) ≡ true
unfolding is_accessible
accessible-pte a flags nz present = rw (==_of_ne a 0 nz, present) refl
