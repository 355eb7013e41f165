-- ===== src/Pgtable/Ended.antt =====
-- pgd_process_cleanup as a whole: what it frees and the counts that it leaves.
use unix_kernel.Base.{
  ℕ, zero, suc, ◌+◌, ◌≤◌, ◌<◌, ◌≡◌, ◌≢◌, refl, ap, subst, ◌∙◌, inl, inr, Bool, true, false,
  Bool-cases, arith, ◌==◌, if◌then◌else◌, eq_of_==, ==_of_ne, List, ◌∷◌, pos, lt_int,
}
use unix_kernel.Sched.Places.{one_if}
use unix_kernel.Frame.{HtAllocs, all_ok, get_frame_refs}
use unix_kernel.Pgtable.{Pte, Vm, is_accessible, sfree}
use unix_kernel.Pgtable.Cleanup.{
  table_entries, first_user, user_tables, release_pte, release_table, release_tables,
  pgd_process_cleanup,
}
use unix_kernel.Pgtable.Release.{IsCounted, refs, give_back}

-- How often a frame stands in an entry, in a table's entries, and in a directory's tables.
abbrev pub uses : Pte → ℕ → ℕ
uses e f = if is_accessible e then one_if (f == e.address) else 0

unfoldable pub table_uses : (rounds j pt : ℕ) → ((table index : ℕ) → Pte) → ℕ → ℕ
table_uses zero j pt mem f = 0
table_uses (suc rounds) j pt mem f = uses (mem pt j) f + table_uses rounds (j + 1) pt mem f

unfoldable pub pgd_uses : (rounds i pgd : ℕ) → ((table index : ℕ) → Pte) → ℕ → ℕ
pgd_uses zero i pgd mem f = 0
pgd_uses (suc rounds) i pgd mem f =
    (if is_accessible (mem pgd i) then table_uses table_entries 0 (mem pgd i).address mem f else 0)
    + pgd_uses rounds (i + 1) pgd mem f

-- The log of freed pages once the directory's tables are freed.
unfoldable pub tables_freed : (rounds i pgd : ℕ) → ((table index : ℕ) → Pte) → List ℕ → List ℕ
tables_freed zero i pgd mem log = log
tables_freed (suc rounds) i pgd mem log =
    tables_freed rounds (i + 1) pgd mem
      (if is_accessible (mem pgd i) then (mem pgd i).address ∷ log else log)

-- The walk has gone on, with the memory as it was, each count lower by the uses of its frame.
pub record Released (owned : ℕ → ℕ) (vm : Vm) (r : Bool × Vm) (used : ℕ → ℕ) (log : List ℕ)
    : Type 0 where
  pub on : r.0 ≡ true
  pub mem : r.1.mem ≡ vm.mem
  pub counted : IsCounted owned r.1.frames
  pub lower : (f : ℕ) → refs r.1.frames f + used f ≡ refs vm.frames f
  pub freed : r.1.freed ≡ log

module _ (owned : ℕ → ℕ) where
  release_pte_lem :
      (vm : Vm) (e : Pte)
      → IsCounted owned vm.frames
      → ((f : ℕ) → uses e f ≤ refs vm.frames f)
      → Released owned vm (release_pte all_ok vm e) (uses e) vm.freed
  unfolding release_pte
  release_pte_lem vm e s enough = elim (Bool-cases (is_accessible e)) [
    | inr a ↦
        let run : release_pte all_ok vm e ≡ (true, vm) = rw (release_pte, a) refl in
        rw run (record {
          on = refl;
          mem = refl;
          counted = s;
          lower = λ f. rw a omega arith;
          freed = refl;
        })
    | inl a ↦
        let here : one_if (e.address == e.address) ≤ refs vm.frames e.address =
          subst (λ b. (if b then one_if (e.address == e.address) else 0) ≤ refs vm.frames e.address)
            a (enough e.address) in
        let big : 0 < refs vm.frames e.address = ground arith in
        let (got, is, count) = give_back owned vm.frames e.address s big in
        let positive : lt_int (get_frame_refs vm.frames e.address) (pos 1) ≡ false =
          rw got ground arith in
        rw (release_pte, a, positive)
          (record {
            on = refl;
            mem = refl;
            counted = is;
            lower = λ f. rw (count f) (elim (Bool-cases (f == e.address)) [
              | inl q ↦ rw (q, a) omega (arith, ap (refs vm.frames) (eq_of_== f e.address q))
              | inr q ↦ rw (q, a) omega arith
            ]);
            freed = refl;
          })
  ]

  release_table_lem :
      (rounds j pt : ℕ) (vm : Vm)
      → IsCounted owned vm.frames
      → ((f : ℕ) → table_uses rounds j pt vm.mem f ≤ refs vm.frames f)
      → Released owned vm
          (release_table all_ok rounds j pt vm)
          (table_uses rounds j pt vm.mem)
          vm.freed
  unfolding release_table table_uses
  release_table_lem zero j pt vm s enough = record {
    on = refl;
    mem = refl;
    counted = s;
    lower = λ f. omega arith;
    freed = refl;
  }
  release_table_lem (suc rounds) j pt vm s enough =
      let first = release_pte_lem vm (vm.mem pt j) s (λ f. let here = enough f in omega arith) in
      let vm' = (release_pte all_ok vm (vm.mem pt j)).1 in
      let same : (f : ℕ)
          → table_uses rounds (j + 1) pt vm'.mem f ≡ table_uses rounds (j + 1) pt vm.mem f =
        λ f. ap (λ m. table_uses rounds (j + 1) pt m f) first.mem in
      let rest = release_table_lem rounds (j + 1) pt vm' first.counted (λ f.
        let here = enough f in let was = first.lower f in let as_before = same f in omega arith) in
      rw (release_table, first.on)
        (record {
          on = rest.on;
          mem = rest.mem ∙ first.mem;
          counted = rest.counted;
          lower = λ f.
              let here = rest.lower f in
              let was = first.lower f in let as_before = same f in omega arith;
          freed = rest.freed ∙ first.freed;
        })

  release_tables_lem :
      (rounds i pgd : ℕ) (vm : Vm)
      → IsCounted owned vm.frames
      → ((f : ℕ) → pgd_uses rounds i pgd vm.mem f ≤ refs vm.frames f)
      → Released owned vm
          (release_tables all_ok rounds i pgd vm)
          (pgd_uses rounds i pgd vm.mem)
          (tables_freed rounds i pgd vm.mem vm.freed)
  unfolding release_tables pgd_uses tables_freed
  release_tables_lem zero i pgd vm s enough = record {
    on = refl;
    mem = refl;
    counted = s;
    lower = λ f. omega arith;
    freed = refl;
  }
  release_tables_lem (suc rounds) i pgd vm s enough =
      elim (Bool-cases (is_accessible (vm.mem pgd i))) [
        | inr a ↦
            let rest =
              release_tables_lem rounds (i + 1) pgd vm s
                (λ f. let here = enough f in ground arith) in
            rw (release_tables, a)
              (record {
                on = rest.on;
                mem = rest.mem;
                counted = rest.counted;
                lower = λ f. rw a omega (arith, rest.lower f);
                freed = rest.freed;
              })
        | inl a ↦
            let pt = (vm.mem pgd i).address in
            let all : (f : ℕ)
                → table_uses table_entries 0 pt vm.mem f + pgd_uses rounds (i + 1) pgd vm.mem f
                  ≤ refs vm.frames f =
              λ f.
                subst
                  (λ b.
                    (if b then table_uses table_entries 0 pt vm.mem f else 0)
                      + pgd_uses rounds (i + 1) pgd vm.mem f
                    ≤ refs vm.frames f)
                  a (enough f) in
            let first =
              release_table_lem table_entries 0 pt vm s (λ f. let here = all f in omega arith) in
            let vm' = sfree pt (release_table all_ok table_entries 0 pt vm).1 in
            let same : (f : ℕ)
                → pgd_uses rounds (i + 1) pgd vm'.mem f ≡ pgd_uses rounds (i + 1) pgd vm.mem f =
              λ f. ap (λ m. pgd_uses rounds (i + 1) pgd m f) first.mem in
            let rest = release_tables_lem rounds (i + 1) pgd vm' first.counted (λ f.
              let here = all f in
              let was = first.lower f in let as_before = same f in omega arith) in
            rw (release_tables, a, first.on)
              (record {
                on = rest.on;
                mem = rest.mem ∙ first.mem;
                counted = rest.counted;
                lower = λ f.
                    let here = rest.lower f in
                    let was = first.lower f in let as_before = same f in rw a omega arith;
                freed =
                    rest.freed
                    ∙ ap
                        (λ m.
                          tables_freed rounds (i + 1) pgd m
                            (pt ∷ (release_table all_ok table_entries 0 pt vm).1.freed))
                        first.mem
                    ∙ ap (λ log. tables_freed rounds (i + 1) pgd vm.mem (pt ∷ log)) first.freed;
              })
      ]

  -- pgd_process_cleanup of a directory, when every allocation succeeds that the table of the counts and
  -- the queue of the free frames ask for, no frame stands in more accessible entries of the
  -- directory's user tables than the frame has references, and all counts are positive ints. Each
  -- frame's count is lower by the number of its entries then; a frame whose count comes to 0 is free
  -- again, and every frame is still free or in use, once. The user tables and the directory are
  -- freed.
  pub pgd_process_cleanup_lem :
      (ok : HtAllocs) (vm : Vm) (pgd : ℕ)
      → ok ≡ all_ok
      → pgd ≢ 0
      → IsCounted owned vm.frames
      → ((f : ℕ) → pgd_uses user_tables first_user pgd vm.mem f ≤ refs vm.frames f)
      → IsCounted owned (pgd_process_cleanup ok vm pgd).frames
        × ((f : ℕ)
            → refs (pgd_process_cleanup ok vm pgd).frames f
                + pgd_uses user_tables first_user pgd vm.mem f
              ≡ refs vm.frames f)
        × ((pgd_process_cleanup ok vm pgd).freed
            ≡ pgd ∷ tables_freed user_tables first_user pgd vm.mem vm.freed)
  unfolding pgd_process_cleanup
  pgd_process_cleanup_lem ok vm pgd succeed nz s enough =
      let all = release_tables_lem user_tables first_user pgd vm s enough in
      let run : pgd_process_cleanup ok vm pgd
          ≡ sfree pgd (release_tables all_ok user_tables first_user pgd vm).1 =
        rw (succeed, pgd_process_cleanup, ==_of_ne pgd 0 nz, all.on) refl in
      rw run (all.counted, all.lower, ap (λ log. pgd ∷ log) all.freed)
