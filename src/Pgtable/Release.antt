-- ===== src/Pgtable/Release.antt =====
-- The counts of references that pgd_process_cleanup gives back.
use unix_kernel.Base.{
  ℕ, zero, suc, ◌-◌, ◌^◌, ◌<◌, ◌≡◌, ◌≢◌, refl, ap, subst, ◌∙◌, ◌⊎◌, inl, inr, true, false,
  Bool-cases, Option, none, some, arith, ◌==◌, if◌then◌else◌, ==_of_eq, ==_of_ne, pos, minus_one,
  to_word,
}
use unix_kernel.Hash.Buckets.{held}
use unix_kernel.Frame.{Frames, all_ok, get_frame_refs, set_frame_refs, frame_free}
use unix_kernel.Frame.Balance.{IsFrames}
use unix_kernel.Frame.Laws.{frame_free_lem}
use unix_kernel.Frame.Refs.{refs_of, get_frame_refs_lem, set-held, set-IsFrames, word-positive}
use unix_kernel.Pgtable.Cleanup.{drop_ref, free_last}

-- A frame's count of references, 0 when it is free.
abbrev pub count_of : Option ℕ → ℕ
count_of none = 0
count_of (some n) = n

abbrev pub refs : Frames → ℕ → ℕ
refs fr f = count_of (held fr.allocated_frame_ht f)

-- Well-formed frames whose counts are positive ints.
pub record IsCounted (owned : ℕ → ℕ) (fr : Frames) : Type 0 where
  pub is_frames : IsFrames owned fr
  pub positive : (f : ℕ) → held fr.allocated_frame_ht f ≢ some 0
  pub small : (f : ℕ) → refs fr f < 2 ^ 31

held-refs : (o : Option ℕ) → 0 < count_of o → o ≡ some (count_of o)
held-refs none h = absurd (omega arith)
held-refs (some n) h = refl

-- The frames once a count is one lower.
lowered :
    (owned : ℕ → ℕ) (fr fr' : Frames) (frm : ℕ)
    → IsCounted owned fr
    → IsFrames owned fr'
    → ((f : ℕ) → held fr'.allocated_frame_ht f ≢ some 0)
    → ((f : ℕ) → refs fr' f ≡ (if f == frm then refs fr frm - 1 else refs fr f))
    → IsCounted owned fr'
lowered owned fr fr' frm s is ne count = record {
  is_frames = is;
  positive = ne;
  small = λ f. rw (count f) (elim (Bool-cases (f == frm)) [
    | inl q ↦ rw q omega (arith, s.small frm)
    | inr q ↦ rw q (s.small f)
  ]);
}

-- The last reference: the frame is freed.
give_last :
    (owned : ℕ → ℕ) (fr : Frames) (frm : ℕ)
    → IsCounted owned fr
    → held fr.allocated_frame_ht frm ≡ some 1
    → IsFrames owned (frame_free true (set_frame_refs all_ok fr frm minus_one).1 frm)
      × ((f : ℕ)
          → held
              (frame_free true (set_frame_refs all_ok fr frm minus_one).1 frm).allocated_frame_ht
              f
            ≢ some 0)
      × ((f : ℕ)
          → refs (frame_free true (set_frame_refs all_ok fr frm minus_one).1 frm) f
            ≡ (if f == frm then 0 else refs fr f))
give_last owned fr frm s there =
    let ne : count_of (some 1) ≢ 0 = (λ z. let p : Path ℕ 1 0 = z in omega arith) in
    let (_, _, _, _, others) = set-held fr frm 1 minus_one s.is_frames.table there ne in
    let is = set-IsFrames owned fr frm 1 minus_one s.is_frames there ne in
    let set_there : held (set_frame_refs all_ok fr frm minus_one).1.allocated_frame_ht frm
        ≡ some (to_word minus_one) =
      others frm ∙ rw (==_of_eq frm frm refl) refl in
    let (_, is', left) =
      frame_free_lem owned (set_frame_refs all_ok fr frm minus_one).1 frm is set_there in
    (
      is',
      λ f. rw (left f) (elim (Bool-cases (f == frm)) [
        | inl q ↦ rw q (λ z. ground arith)
        | inr q ↦ rw (q, others f) (rw q (s.positive f))
      ]),
      λ f. ap count_of (left f) ∙ elim (Bool-cases (f == frm)) [
        | inl q ↦ rw q refl
        | inr q ↦ rw q (ap count_of (others f) ∙ rw q refl)
      ],
    )

give_one :
    (owned : ℕ → ℕ) (fr : Frames) (frm n : ℕ)
    → IsCounted owned fr
    → held fr.allocated_frame_ht frm ≡ some (suc (suc n))
    → IsFrames owned (set_frame_refs all_ok fr frm (pos (suc n))).1
      × ((f : ℕ)
          → held (set_frame_refs all_ok fr frm (pos (suc n))).1.allocated_frame_ht f ≢ some 0)
      × ((f : ℕ)
          → refs (set_frame_refs all_ok fr frm (pos (suc n))).1 f
            ≡ (if f == frm then suc n else refs fr f))
give_one owned fr frm n s there =
    let ne : suc (suc n) ≢ 0 = (λ z. let p : suc (suc n) ≡ 0 = z in omega arith) in
    let (_, _, _, _, others) =
      set-held fr frm (suc (suc n)) (pos (suc n)) s.is_frames.table there ne in
    let bound = s.small frm in
    let size = ap count_of there in
    let (word, _) = word-positive (suc n) (omega arith) (omega arith) in
    (
      set-IsFrames owned fr frm (suc (suc n)) (pos (suc n)) s.is_frames there ne,
      λ f. rw (others f) (elim (Bool-cases (f == frm)) [
        | inl q ↦ rw (q, word) (λ z. ground arith)
        | inr q ↦ rw q (s.positive f)
      ]),
      λ f.
          ap count_of (others f)
          ∙ elim (Bool-cases (f == frm)) [ inl q ↦ rw (q, word) refl | inr q ↦ rw q refl ],
    )

-- One reference fewer.
pub give_back :
    (owned : ℕ → ℕ) (fr : Frames) (frm : ℕ)
    → IsCounted owned fr
    → 0 < refs fr frm
    → (get_frame_refs fr frm ≡ pos (refs fr frm))
      × IsCounted owned (
          free_last all_ok
            (drop_ref all_ok fr frm (get_frame_refs fr frm))
            frm
            (get_frame_refs fr frm))
      × ((f : ℕ)
          → refs
              (free_last all_ok
                (drop_ref all_ok fr frm (get_frame_refs fr frm))
                frm
                (get_frame_refs fr frm))
              f
            ≡ (if f == frm then refs fr frm - 1 else refs fr f))
unfolding drop_ref free_last
give_back owned fr frm s big =
    let there = held-refs (held fr.allocated_frame_ht frm) big in
    let bound = s.small frm in
    elim (Count-cases (refs fr frm) big) [
      | inl one ↦
          let (is, positive, count) = give_last owned fr frm s (there ∙ ap some one) in
          let got : get_frame_refs fr frm ≡ pos 1 =
            get_frame_refs_lem fr frm s.is_frames.table ∙ ap refs_of (there ∙ ap some one) in
          rw (got, one) (refl, lowered owned fr _ frm s is positive (λ f. rw one (count f)), count)
      | inr (n, more) ↦
          let (is, positive, count) = give_one owned fr frm n s (there ∙ ap some more) in
          let (_, back) = word-positive (suc (suc n)) (omega arith) (omega arith) in
          let got : get_frame_refs fr frm ≡ pos (suc (suc n)) =
            get_frame_refs_lem fr frm s.is_frames.table
            ∙ ap refs_of (there ∙ ap some more)
            ∙ rw (==_of_ne (suc (suc n)) 0 (λ z. let p : suc (suc n) ≡ 0 = z in omega arith))
                back in
          let two : (suc (suc n) == 1) ≡ false =
            ==_of_ne (suc (suc n)) 1 (λ z. let p : suc (suc n) ≡ 1 = z in omega arith) in
          let less : suc n ≡ suc (suc n) - 1 = omega arith in
          let count' : (f : ℕ)
              → refs (set_frame_refs all_ok fr frm (pos (suc n))).1 f
                ≡ (if f == frm then suc (suc n) - 1 else refs fr f) =
            subst
              (λ m.
                (f : ℕ)
                → refs (set_frame_refs all_ok fr frm (pos (suc n))).1 f
                  ≡ (if f == frm then m else refs fr f))
              less count in
          let run : free_last all_ok (drop_ref all_ok fr frm (pos (suc (suc n)))) frm
                (pos (suc (suc n)))
              ≡ (set_frame_refs all_ok fr frm (pos (suc n))).1 =
            rw (drop_ref, free_last, two) refl in
          rw (got, more, run)
            (refl, lowered owned fr _ frm s is positive (λ f. rw more (count' f)), count')
    ]
  where
    Count-cases : (n : ℕ) → 0 < n → (n ≡ 1) ⊎ ((k : ℕ) × (n ≡ suc (suc k)))
    Count-cases zero h = absurd (omega arith)
    Count-cases (suc zero) h = inl refl
    Count-cases (suc (suc k)) h = inr (k, refl)
