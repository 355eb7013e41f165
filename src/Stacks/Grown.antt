-- ===== src/Stacks/Grown.antt =====
-- How autostack.c grows the root thread's stack.
use unix_kernel.Base.{
  ℕ, zero, suc, ◌+◌, ◌-◌, ◌*◌, ◌/◌, ◌≤◌, ◌<◌, ◌≡◌, refl, ap, ◌∙◌, ◌⊎◌, inl, inr, true, false,
  Bool-cases, some, List, [], ◌∷◌, ◌++◌, arith, ℤ, pos, minus_one, leb,
}
use unix_kernel.Stacks.{Stacks, page_size, take_answer, new_pages, grow_from, alloc_aligned_pages}

-- `n` pages from `lo` on, as new_pages has logged them: the lowest is the latest.
abbrev pub page_run : (lo n : ℕ) → List (ℕ × ℕ)
page_run lo zero = []
page_run lo (suc n) = (lo, page_size) ∷ page_run (lo + page_size) n

page_run-snoc :
    (lo n : ℕ) (pages : List (ℕ × ℕ))
    → page_run lo n ++ (lo + n * page_size, page_size) ∷ pages ≡ page_run lo (suc n) ++ pages
page_run-snoc lo zero pages = ap (λ (a : ℕ). (a, page_size) ∷ pages) (omega arith)
page_run-snoc lo (suc n) pages =
    ap (λ (a : ℕ). (lo, page_size) ∷ (page_run (lo + page_size) n ++ (a, page_size) ∷ pages))
      (omega arith)
    ∙ ap (λ (r : List (ℕ × ℕ)). (lo, page_size) ∷ r) (page_run-snoc (lo + page_size) n pages)

-- What growth down to `addr` has done after `n` rounds.
pub record IsGrown (s : Stacks) (addr : ℕ) (s' : Stacks) (n : ℕ) : Type 0 where
  pub lower : s'.root_stack_lo + n * page_size ≡ s.root_stack_lo
  pub pages : s'.pages ≡ page_run s'.root_stack_lo n ++ s.pages
  pub covers : s'.root_stack_lo < addr
  pub no_more : (n ≡ 0) ⊎ (addr ≤ s'.root_stack_lo + page_size)

-- The state after one page more has been asked for.
abbrev lowered : Stacks → Stacks
lowered s =
    (new_pages (record s { root_stack_lo = s.root_stack_lo - page_size })
      (s.root_stack_lo - page_size) page_size).1

grow-stop :
    (fuel : ℕ) (s : Stacks) (addr : ℕ)
    → s.root_stack_lo < addr
    → grow_from (suc fuel) s addr ≡ some (pos 0, s)
unfolding grow_from
grow-stop fuel s addr less =
    let done : leb addr s.root_stack_lo ≡ false = ground arith in rw (grow_from, done) refl

grow-refused :
    (fuel : ℕ) (s : Stacks) (addr : ℕ)
    → addr ≤ s.root_stack_lo
    → (take_answer s.pages_ok).0 ≡ false
    → grow_from (suc fuel) s addr ≡ some (minus_one, lowered s)
unfolding grow_from new_pages
grow-refused fuel s addr le refused =
    let more : leb addr s.root_stack_lo ≡ true = ground arith in rw (grow_from, more, refused) refl

grow-step :
    (fuel : ℕ) (s : Stacks) (addr : ℕ)
    → addr ≤ s.root_stack_lo
    → (take_answer s.pages_ok).0 ≡ true
    → grow_from (suc fuel) s addr ≡ grow_from fuel (lowered s) addr
unfolding grow_from new_pages
grow-step fuel s addr le got =
    let more : leb addr s.root_stack_lo ≡ true = ground arith in rw (grow_from, more, got) refl

lowered_lem :
    (s : Stacks)
    → (take_answer s.pages_ok).0 ≡ true
    → ((lowered s).root_stack_lo ≡ s.root_stack_lo - page_size)
      × ((lowered s).pages ≡ (s.root_stack_lo - page_size, page_size) ∷ s.pages)
unfolding new_pages
lowered_lem s got = rw got (refl, refl)

no_growth : (s : Stacks) (addr : ℕ) → s.root_stack_lo < addr → IsGrown s addr s 0
no_growth s addr less = record {
  lower = omega arith;
  pages = refl;
  covers = less;
  no_more = inl refl;
}

-- One round before the others.
more_growth :
    (s s' : Stacks) (addr n : ℕ)
    → page_size ≤ addr
    → addr ≤ s.root_stack_lo
    → (take_answer s.pages_ok).0 ≡ true
    → IsGrown (lowered s) addr s' n
    → IsGrown s addr s' (suc n)
more_growth s s' addr n above le got g =
    let (root, pages) = lowered_lem s got in
    let lower = g.lower in
    let covers = g.covers in
    record {
      lower = omega arith;
      pages =
          g.pages
          ∙ ap (λ (p : List (ℕ × ℕ)). page_run s'.root_stack_lo n ++ p) pages
          ∙ ap (λ (a : ℕ). page_run s'.root_stack_lo n ++ (a, page_size) ∷ s.pages) (omega arith)
          ∙ page_run-snoc s'.root_stack_lo n s.pages;
      covers = covers;
      no_more = inr (elim g.no_more [ inl z ↦ omega arith | inr h ↦ h ]);
    }

grow_from_lem :
    (fuel : ℕ) (s : Stacks) (addr : ℕ)
    → page_size ≤ addr
    → s.root_stack_lo < addr + fuel * page_size
    → (r : ℤ) × (s' : Stacks) × (grow_from (suc fuel) s addr ≡ some (r, s'))
      × ((r ≡ minus_one) ⊎ ((r ≡ pos 0) × ((n : ℕ) × IsGrown s addr s' n)))
grow_from_lem zero s addr above enough =
    let less : s.root_stack_lo < addr = omega arith in
    (pos 0, s, grow-stop 0 s addr less, inr (refl, (0, no_growth s addr less)))
grow_from_lem (suc fuel) s addr above enough = elim (Bool-cases (leb addr s.root_stack_lo)) [
  | inr e ↦
      let less : s.root_stack_lo < addr = ground arith in
      (pos 0, s, grow-stop (suc fuel) s addr less, inr (refl, (0, no_growth s addr less)))
  | inl e ↦
      let le : addr ≤ s.root_stack_lo = ground arith in
      elim (Bool-cases (take_answer s.pages_ok).0) [
        | inr f ↦ (minus_one, lowered s, grow-refused (suc fuel) s addr le f, inl refl)
        | inl f ↦
            let root = (lowered_lem s f).0 in
            let (r, s', ends, result) = grow_from_lem fuel (lowered s) addr above (omega arith) in
            (
              r,
              s',
              grow-step (suc fuel) s addr le f ∙ ends,
              elim result [
                | inl failed ↦ inl failed
                | inr (ok, (n, g)) ↦ inr (ok, (suc n, more_growth s s' addr n above le f g))
              ],
            )
      ]
]

-- For an address above the first page alloc_aligned_pages ends. It answers -1, or it answers 0 and
-- has allocated a run of pages that ends where the stack began: the stack now reaches below the
-- address, and no page was more than that needs.
pub alloc_aligned_pages_lem :
    (s : Stacks) (addr : ℕ)
    → page_size ≤ addr
    → (r : ℤ) × (s' : Stacks) × (alloc_aligned_pages s addr ≡ some (r, s'))
      × ((r ≡ minus_one) ⊎ ((r ≡ pos 0) × ((n : ℕ) × IsGrown s addr s' n)))
unfolding alloc_aligned_pages
alloc_aligned_pages_lem s addr above =
    grow_from_lem (s.root_stack_lo / page_size + 1) s addr above (omega arith)
