-- ===== src/Pgtable/Tests.antt =====
-- A directory with one table that maps one page.
use unix_kernel.Base.{
  ℕ, zero, suc, ◌+◌, ◌^◌, ◌%◌, ◌≤◌, ◌≡◌, ◌<◌, ◌-◌, ◌≢◌, ◌⊎◌, inl, inr, refl, true, false,
  Bool-cases, ◌&&◌, ◌||◌, [], ◌∷◌, arith, some, leb, ℤ, pos, minus_one, ◌==◌, if◌then◌else◌,
}
use unix_kernel.Frame.{all_ok, frame_alloc}
use unix_kernel.Frame.Tests.{one, owns, one-IsFrames, one-all, shared}
use unix_kernel.Pgtable.{
  page_size, get_address, Flags, Pte, Vm, null_pte, is_null, is_accessible, smemalign, store,
  get_pgd_index, get_pt_index, pgd_insert, pt_entry_delete,
}
use unix_kernel.Pgtable.View.{entry_at, IsPgd, set_entry, set_table, accessible-address}
use unix_kernel.Pgtable.Tables.{IsFresh}
use unix_kernel.Pgtable.Insert.{Puts, pgd_insert_lem}
use unix_kernel.Sched.Places.{one_if}
use unix_kernel.Pgtable.Cleanup.{first_user, user_tables, pgd_process_cleanup}
use unix_kernel.Pgtable.Release.{IsCounted, refs}
use unix_kernel.Pgtable.Ended.{table_uses, pgd_uses, tables_freed, pgd_process_cleanup_lem}
use unix_kernel.Pgtable.Walks.{last_address, alloc_pages_from, pgd_alloc_pages}
use unix_kernel.Pgtable.Pages.{pgd_alloc_pages_lem}
use unix_kernel.Pgtable.Delete.{pt_entry_delete_lem}

abbrev pub user : Flags
user = record { present = true; writable = true; user = true; global = false }

abbrev pub blank : (table index : ℕ) → Pte
blank t i = null_pte

-- The directory's page, and its table's.
abbrev pub pgd : ℕ
pgd = 0x10000

blank-IsPgd : IsPgd blank pgd
unfolding is_accessible
blank-IsPgd = record {
  clean = λ i. inr refl;
  distinct = λ i k a. absurd (ground arith);
  apart = λ i a. absurd (ground arith);
}

abbrev pub mapped : (table index : ℕ) → Pte
mapped = store blank pgd 4 (record { address = 0x20000; flags = user })

abbrev vm : Vm
vm = record { mem = mapped; frames = one; smem = []; freed = [] }

mapped-IsPgd : IsPgd mapped pgd
unfolding is_accessible
mapped-IsPgd =
    let (is, _) =
      set_table blank pgd 4 (record { address = 0x20000; flags = user }) blank-IsPgd refl
        (λ z. ground arith) (λ k ne a. absurd (ground arith)) in
    is

mapped-IsFresh : IsFresh vm pgd
unfolding smemalign
mapped-IsFresh = record {
  no_pgd = λ z. ground arith;
  no_table = λ k a. let (ne, _) = accessible-address (mapped pgd k) a in ne;
}

abbrev frame : ℕ
frame = 4096

abbrev pub page : ℕ
page = 0x1234000

pgd_insert_lem_example :
    IsPgd (pgd_insert all_ok vm pgd page user user 4096).1.mem pgd
    × ((((pgd_insert all_ok vm pgd page user user 4096).0 ≡ minus_one)
          × (((is_accessible (vm.mem pgd (get_pgd_index page)) ≡ false) × ((smemalign vm).0 ≡ 0))
              ⊎ ((is_null (entry_at vm.mem pgd (get_pgd_index page) (get_pt_index page)) ≡ true)
                  × (frame ≡ 0)
                  × ((frame_alloc all_ok vm.frames).0 ≡ 0)))
          × ((k l : ℕ)
              → entry_at (pgd_insert all_ok vm pgd page user user 4096).1.mem pgd k l
                ≡ entry_at vm.mem pgd k l))
        ⊎ ((address : ℕ) × ((pgd_insert all_ok vm pgd page user user 4096).0 ≡ pos 0)
            × Puts all_ok vm.frames
                (pgd_insert all_ok vm pgd page user user 4096).1.frames
                (entry_at vm.mem pgd (get_pgd_index page) (get_pt_index page))
                4096
                address
            × ((k l : ℕ)
                → entry_at (pgd_insert all_ok vm pgd page user user 4096).1.mem pgd k l ≡ (
                    if (k == get_pgd_index page) && (l == get_pt_index page)
                    then record { address = address; flags = user }
                    else entry_at vm.mem pgd k l))))
pgd_insert_lem_example =
    pgd_insert_lem all_ok vm pgd page user user 4096 (λ z. ground arith) mapped-IsPgd
      (λ a. mapped-IsFresh) refl

-- The table has an entry of a frame in use, for the page.
abbrev pub used_mem : (table index : ℕ) → Pte
used_mem = store mapped 0x20000 564 (record { address = 4096; flags = user })

abbrev pub used_vm : Vm
used_vm = record { mem = used_mem; frames = one; smem = []; freed = [] }

pub used-IsPgd : IsPgd used_mem pgd
unfolding is_accessible store
used-IsPgd =
    let (is, _) =
      set_entry mapped pgd 4 564 (record { address = 4096; flags = user }) mapped-IsPgd refl in
    is

pt_entry_delete_lem_example :
    ((is_accessible (entry_at used_vm.mem pgd (get_pgd_index page) (get_pt_index page)) ≡ false)
      × (pt_entry_delete used_vm pgd page true ≡ (0, used_vm)))
    ⊎ ((is_accessible (entry_at used_vm.mem pgd (get_pgd_index page) (get_pt_index page)) ≡ true)
        × ((pt_entry_delete used_vm pgd page true).0
            ≡ (entry_at used_vm.mem pgd (get_pgd_index page) (get_pt_index page)).address)
        × IsPgd (pt_entry_delete used_vm pgd page true).1.mem pgd
        × ((k l : ℕ)
            → entry_at (pt_entry_delete used_vm pgd page true).1.mem pgd k l ≡ (
                if (k == get_pgd_index page) && (true || (l == get_pt_index page))
                then null_pte
                else entry_at used_vm.mem pgd k l))
        × ((pt_entry_delete used_vm pgd page true).1.freed ≡ (
            if true
            then (used_vm.mem pgd (get_pgd_index page)).address ∷ used_vm.freed
            else used_vm.freed))
        × ((pt_entry_delete used_vm pgd page true).1.frames ≡ used_vm.frames))
pt_entry_delete_lem_example =
    pt_entry_delete_lem used_vm pgd page true (λ z. ground arith) used-IsPgd

one-IsCounted : IsCounted owns one
one-IsCounted = record {
  is_frames = one-IsFrames;
  positive = λ f. rw (one-all f) (elim (Bool-cases (f == 4096)) [
    | inl q ↦ rw q (λ z. ground arith)
    | inr q ↦ rw q (λ z. ground arith)
  ]);
  small = λ f.
      rw (one-all f)
        (elim (Bool-cases (f == 4096)) [ inl q ↦ rw q omega arith | inr q ↦ rw q omega arith ]);
}

table_uses-once :
    (rounds j f : ℕ)
    → table_uses rounds j 0x20000 used_mem f ≤ (if leb j 564 then one_if (f == 4096) else 0)
unfolding table_uses store is_accessible
table_uses-once zero j f = ground arith
table_uses-once (suc rounds) j f =
    let rest = table_uses-once rounds (j + 1) f in
    elim (Bool-cases (j == 564)) [ inl q ↦ ground arith | inr q ↦ ground arith ]

pgd_uses-once :
    (rounds i f : ℕ)
    → pgd_uses rounds i pgd used_mem f ≤ (if leb i 4 then one_if (f == 4096) else 0)
unfolding pgd_uses store is_accessible
pgd_uses-once zero i f = ground arith
pgd_uses-once (suc rounds) i f =
    let rest = pgd_uses-once rounds (i + 1) f in
    let table = table_uses-once 1024 0 f in
    elim (Bool-cases (i == 4)) [ inl q ↦ ground arith | inr q ↦ ground arith ]

pgd_process_cleanup_lem_example :
    IsCounted owns (pgd_process_cleanup all_ok used_vm pgd).frames
    × ((f : ℕ)
        → refs (pgd_process_cleanup all_ok used_vm pgd).frames f
            + pgd_uses user_tables first_user pgd used_vm.mem f
          ≡ refs used_vm.frames f)
    × ((pgd_process_cleanup all_ok used_vm pgd).freed
        ≡ pgd ∷ tables_freed user_tables first_user pgd used_vm.mem used_vm.freed)
pgd_process_cleanup_lem_example =
    pgd_process_cleanup_lem owns all_ok used_vm pgd refl (λ z. ground arith) one-IsCounted
      (λ f.
        let used = pgd_uses-once user_tables first_user f in
        rw (one-all f)
          (elim (Bool-cases (f == 4096)) [ inl q ↦ rw q ground arith | inr q ↦ rw q ground arith ]))

pub used-table :
    (is_accessible (used_vm.mem pgd (get_pgd_index page)) ≡ true)
    × ((used_vm.mem pgd (get_pgd_index page)).address % 2 ^ 12 ≡ 0)
    × (entry_at used_vm.mem pgd (get_pgd_index page) (get_pt_index page)
        ≡ record { address = 4096; flags = user })
unfolding store is_accessible get_pgd_index get_pt_index
used-table = (refl, refl, refl)

pgd_alloc_pages_lem_example :
    (last_address 0x1234567 5000 < 2 ^ 32 - page_size
      → (r : ℤ) × (left : Vm) × (pgd_alloc_pages all_ok vm pgd 0x1234567 5000 user user
          ≡ some (r, left))
        × ((r ≡ pos 0) ⊎ (r ≡ minus_one)))
    × ((fuel : ℕ) (r : ℤ) (left : Vm)
        → 2 ^ 32 - page_size ≤ last_address 0x1234567 5000
        → alloc_pages_from all_ok fuel vm pgd
            (get_address 0x1234567)
            (last_address 0x1234567 5000)
            user
            user
          ≡ some (r, left)
        → r ≡ minus_one)
pgd_alloc_pages_lem_example =
    pgd_alloc_pages_lem all_ok vm pgd 0x1234567 5000 user user (omega arith)

-- The frame of the page is shared, and a page for a table is left.
abbrev pub shared_vm : Vm
shared_vm = record { mem = used_mem; frames = shared; smem = 0x30000 ∷ []; freed = [] }

pub shared-IsFresh : IsFresh shared_vm pgd
unfolding smemalign is_accessible store
shared-IsFresh = record {
  no_pgd = λ z. ground arith;
  no_table = λ k a z. elim (Bool-cases (k == 4)) [ inl q ↦ ground arith | inr q ↦ ground arith ];
}

pub shared-page : (smemalign shared_vm).0 ≢ 0
unfolding smemalign
shared-page z = ground arith

pub last-no_table : is_accessible (used_mem pgd (get_pgd_index 0xfffff000)) ≡ false
unfolding is_accessible store get_pgd_index
last-no_table = refl
