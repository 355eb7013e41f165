-- ===== src/Frame/Refs.antt =====
-- frame.c's counts of references.
use unix_kernel.Base.{
  ℕ, ◌^◌, ◌<◌, ◌≡◌, ◌≢◌, refl, sym, ap, ◌∙◌, false, Bool-cases, Option-cases, inl, inr, Option,
  none, some, arith, ℤ, pos, minus_one, ◌==◌, if◌then◌else◌, length, eq_of_==, ==_of_ne, ==_of_eq,
  to_word, of_word, ltb_of_lt,
}
use unix_kernel.Hash.{ht_delete}
use unix_kernel.Hash.Buckets.{held, IsHt}
use unix_kernel.Hash.Laws.{ht_delete_lem, ht_lookup_lem}
use unix_kernel.Frame.{Frames, all_ok, get_frame_refs, set_frame_refs}
use unix_kernel.Frame.Balance.{used, IsFrames, used-set}
use unix_kernel.Frame.Laws.{insert-new}

-- What get_frame_refs answers of the word that the table holds.
abbrev pub refs_of : Option ℕ → ℤ
refs_of none = minus_one
refs_of (some w) = if w == 0 then minus_one else of_word w

-- get_frame_refs answers the count that the table holds, and -1 when it holds none, or 0.
pub get_frame_refs_lem :
    (fr : Frames) (frame : ℕ)
    → IsHt fr.allocated_frame_ht
    → get_frame_refs fr frame ≡ refs_of (held fr.allocated_frame_ht frame)
unfolding get_frame_refs
get_frame_refs_lem fr frame s =
    let answer = ht_lookup_lem fr.allocated_frame_ht frame s in
    elim (Option-cases (held fr.allocated_frame_ht frame)) [
      | inl e ↦ rw (answer, e) refl
      | inr (w, e) ↦ rw (answer, e) refl
    ]

pub word-positive : (n : ℕ) → 0 < n → n < 2 ^ 31 → (to_word (pos n) ≡ n) × (of_word n ≡ pos n)
word-positive n big small = (omega arith, rw (ltb_of_lt n (2 ^ 31) small) refl)

pub set-held :
    (fr : Frames) (frame w : ℕ) (refs : ℤ)
    → IsHt fr.allocated_frame_ht
    → held fr.allocated_frame_ht frame ≡ some w
    → w ≢ 0
    → ((set_frame_refs all_ok fr frame refs).0 ≡ pos 0)
      × ((set_frame_refs all_ok fr frame refs).1.free_frame_queue ≡ fr.free_frame_queue)
      × ((set_frame_refs all_ok fr frame refs).1.frame_count ≡ fr.frame_count)
      × IsHt (set_frame_refs all_ok fr frame refs).1.allocated_frame_ht
      × ((f : ℕ)
          → held (set_frame_refs all_ok fr frame refs).1.allocated_frame_ht f
            ≡ (if f == frame then some (to_word refs) else held fr.allocated_frame_ht f))
unfolding set_frame_refs
set-held fr frame w refs s there ne = elim (ht_delete_lem fr.allocated_frame_ht frame s) [
  | inl (gone, _) ↦ absurd (ground arith)
  | inr (old, is, left) ↦
      let nonzero : ((ht_delete fr.allocated_frame_ht frame).0 == 0) ≡ false =
        ==_of_ne _ 0 (λ z. ne (ground arith)) in
      let (is', others) =
        insert-new (ht_delete fr.allocated_frame_ht frame).1 frame (to_word refs) is
          (left frame ∙ rw (==_of_eq frame frame refl) refl) in
      rw (set_frame_refs, nonzero)
        (
          refl,
          refl,
          refl,
          is',
          λ f.
              others f
              ∙ elim (Bool-cases (f == frame)) [ inl q ↦ rw q refl | inr q ↦ rw (left f, q) refl ],
        )
]

-- Whatever the new count, no frame is freed or taken.
pub set-IsFrames :
    (owned : ℕ → ℕ) (fr : Frames) (frame w : ℕ) (refs : ℤ)
    → IsFrames owned fr
    → held fr.allocated_frame_ht frame ≡ some w
    → w ≢ 0
    → IsFrames owned (set_frame_refs all_ok fr frame refs).1
set-IsFrames owned fr frame w refs s there ne =
    let (_, queue, same_count, is, others) = set-held fr frame w refs s.table there ne in
    record {
      table = is;
      balance = λ f.
          let was = s.balance f in
          rw
            (queue, others f, used-set f frame (held fr.allocated_frame_ht f) (some (to_word refs)))
            (elim (Bool-cases (f == frame)) [
              | inl q ↦
                  let same : used (held fr.allocated_frame_ht f) ≡ 1 =
                    ap (λ x. used (held fr.allocated_frame_ht x)) (eq_of_== f frame q)
                    ∙ ap used there in
                  ground arith
              | inr q ↦ ground arith
            ]);
      once = s.once;
      no_null = s.no_null;
      counted = same_count ∙ s.counted ∙ ap (λ q. pos (length q)) (sym queue);
    }

-- set_frame_refs of a frame whose count is there and not 0 stores a count of 1 to 2 ^ 31 - 1:
-- get_frame_refs answers it then, and for every other frame what it did. No frame is freed or taken.
pub set_frame_refs_lem :
    (owned : ℕ → ℕ) (fr : Frames) (frame w n : ℕ)
    → IsFrames owned fr
    → held fr.allocated_frame_ht frame ≡ some w
    → w ≢ 0
    → 0 < n
    → n < 2 ^ 31
    → ((set_frame_refs all_ok fr frame (pos n)).0 ≡ pos 0)
      × IsFrames owned (set_frame_refs all_ok fr frame (pos n)).1
      × ((f : ℕ)
          → get_frame_refs (set_frame_refs all_ok fr frame (pos n)).1 f
            ≡ (if f == frame then pos n else get_frame_refs fr f))
set_frame_refs_lem owned fr frame w n s there ne big small =
    let (answer, _, _, is, others) = set-held fr frame w (pos n) s.table there ne in
    let (word, back) = word-positive n big small in
    (
      answer,
      set-IsFrames owned fr frame w (pos n) s there ne,
      λ f. get_frame_refs_lem _ f is ∙ ap refs_of (others f) ∙ elim (Bool-cases (f == frame)) [
        | inl q ↦ rw (q, word, ==_of_ne n 0 (λ z. omega arith)) back
        | inr q ↦ rw q (sym (get_frame_refs_lem fr f s.table))
      ],
    )
