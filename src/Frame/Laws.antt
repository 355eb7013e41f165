-- ===== src/Frame/Laws.antt =====
-- frame.c's functions that take and give back frames.
use unix_kernel.Base.{
  ℕ, ◌≡◌, ◌≢◌, refl, ap, ◌∙◌, true, false, Bool-cases, inl, inr, none, some, List, [], ◌∷◌, arith,
  minus_one, ◌==◌, if◌then◌else◌, eq_of_==, ==_of_ne, int_dec,
}
use unix_kernel.Sched.{take_last}
use unix_kernel.Sched.Places.{count, count-take_last}
use unix_kernel.Hash.{Ht, ht_insert}
use unix_kernel.Hash.Buckets.{held, IsHt}
use unix_kernel.Hash.Laws.{ht_insert-cases, ht_delete_lem}
use unix_kernel.Frame.{Frames, all_ok, dequeued, allocated, frame_alloc, frame_free}
use unix_kernel.Frame.Balance.{used, IsFrames, used-set, used-none, length-take_last}

-- A new key with any memory that ht_insert wants.
pub insert-new :
    (t : Ht) (key value : ℕ)
    → IsHt t
    → held t key ≡ none
    → IsHt (ht_insert true true true t key value).1
      × ((k : ℕ)
          → held (ht_insert true true true t key value).1 k
            ≡ (if k == key then some value else held t k))
insert-new t key value s new = elim (ht_insert-cases true true t key value s) [
  | inl (inl e, _) ↦ absurd (ground arith)
  | inl (inr (inl (e, _)), _) ↦ absurd (ground arith)
  | inl (inr (inr e), _) ↦ absurd (ground arith)
  | inr (_, _, is, others) ↦ (is, others)
]

frame_alloc-some :
    (fr : Frames) (frame : ℕ) (queue : List ℕ)
    → take_last fr.free_frame_queue ≡ some (frame, queue)
    → frame_alloc all_ok fr ≡ (
      frame,
      record {
        free_frame_queue = queue;
        allocated_frame_ht = (ht_insert true true true fr.allocated_frame_ht frame 1).1;
        frame_count = int_dec fr.frame_count;
      },
    )
unfolding frame_alloc
frame_alloc-some fr frame queue e = ap (λ o. allocated all_ok fr (dequeued fr.free_frame_queue o)) e

-- frame_alloc keeps the balance while a frame is free and the table gets its memory. It answers the
-- frame that has been free the longest, whose count of references is then 1; no other frame's count
-- changes.
pub frame_alloc_lem :
    (owned : ℕ → ℕ) (fr : Frames) (frame : ℕ) (queue : List ℕ)
    → IsFrames owned fr
    → take_last fr.free_frame_queue ≡ some (frame, queue)
    → ((frame_alloc all_ok fr).0 ≡ frame)
      × (frame ≢ 0)
      × IsFrames owned (frame_alloc all_ok fr).1
      × (held fr.allocated_frame_ht frame ≡ none)
      × ((f : ℕ)
          → held (frame_alloc all_ok fr).1.allocated_frame_ht f
            ≡ (if f == frame then some 1 else held fr.allocated_frame_ht f))
unfolding count
frame_alloc_lem owned fr frame queue s e =
    let at = count-take_last frame frame fr.free_frame_queue queue e in
    let balance = s.balance frame in
    let once = s.once frame in
    let new : held fr.allocated_frame_ht frame ≡ none =
      used-none (held fr.allocated_frame_ht frame) (ground arith) in
    let (is, others) = insert-new fr.allocated_frame_ht frame 1 s.table new in
    let ne : frame ≢ 0 =
      λ z. (let none_there = s.no_null in let same = ap owned z in ground arith) in
    rw (frame_alloc-some fr frame queue e) (
      refl,
      ne,
      record {
        table = is;
        balance = λ f.
            let there = count-take_last f frame fr.free_frame_queue queue e in
            let was = s.balance f in
            rw (others f, used-set f frame (held fr.allocated_frame_ht f) (some 1))
              (elim (Bool-cases (f == frame)) [
                | inl q ↦
                    let same : used (held fr.allocated_frame_ht f) ≡ 0 =
                      ap (λ x. used (held fr.allocated_frame_ht x)) (eq_of_== f frame q)
                      ∙ ap used new in
                    ground arith
                | inr q ↦ ground arith
              ]);
        once = s.once;
        no_null = s.no_null;
        counted =
            let fewer = length-take_last fr.free_frame_queue queue frame e in
            let was = s.counted in rw (was, fewer) refl;
      },
      new,
      others,
    )

frame_alloc-none :
    (fr : Frames)
    → fr.free_frame_queue ≡ []
    → frame_alloc all_ok fr ≡ allocated all_ok fr (0, fr.free_frame_queue)
unfolding frame_alloc take_last
frame_alloc-none fr e =
    ap (λ o. allocated all_ok fr (dequeued fr.free_frame_queue o)) (ap take_last e)

-- When no frame is free, frame_alloc answers NULL, and still gives NULL a count of references, 1, and
-- lowers frame_count: from 0, it is -1 then.
pub frame_alloc-empty :
    (owned : ℕ → ℕ) (fr : Frames)
    → IsFrames owned fr
    → fr.free_frame_queue ≡ []
    → ((frame_alloc all_ok fr).0 ≡ 0)
      × ((frame_alloc all_ok fr).1.frame_count ≡ minus_one)
      × (held (frame_alloc all_ok fr).1.allocated_frame_ht 0 ≡ some 1)
unfolding count
frame_alloc-empty owned fr s e =
    let balance = s.balance 0 in
    let none_there = s.no_null in
    let new : held fr.allocated_frame_ht 0 ≡ none =
      used-none (held fr.allocated_frame_ht 0) (ground arith) in
    let (_, others) = insert-new fr.allocated_frame_ht 0 1 s.table new in
    rw (frame_alloc-none fr e) (refl, rw (s.counted, e) refl, others 0)

-- frame_free of a frame in use keeps the balance when enqueue gets its node: the frame stands in
-- front of the free ones, and has no count of references; no other frame's count changes.
pub frame_free_lem :
    (owned : ℕ → ℕ) (fr : Frames) (frame : ℕ) {refs : ℕ}
    → IsFrames owned fr
    → held fr.allocated_frame_ht frame ≡ some refs
    → ((frame_free true fr frame).free_frame_queue ≡ frame ∷ fr.free_frame_queue)
      × IsFrames owned (frame_free true fr frame)
      × ((f : ℕ)
          → held (frame_free true fr frame).allocated_frame_ht f
            ≡ (if f == frame then none else held fr.allocated_frame_ht f))
unfolding frame_free count
frame_free_lem owned fr frame s there =
    let at = s.balance frame in
    let in_use = ap used there in
    let none_there = s.no_null in
    let ne : (frame == 0) ≡ false = ==_of_ne frame 0 (λ z. let same = ap owned z in ground arith) in
    elim (ht_delete_lem fr.allocated_frame_ht frame s.table) [
      | inl (gone, _) ↦ absurd (ground arith)
      | inr (_, is, others) ↦
          rw (frame_free, ne)
            (
              refl,
              record {
                table = is;
                balance = λ f.
                    let was = s.balance f in
                    rw (others f, used-set f frame (held fr.allocated_frame_ht f) none)
                      (elim (Bool-cases (f == frame)) [
                        | inl q ↦
                            let same : used (held fr.allocated_frame_ht f) ≡ 1 =
                              ap (λ x. used (held fr.allocated_frame_ht x)) (eq_of_== f frame q)
                              ∙ in_use in
                            ground arith
                        | inr q ↦ ground arith
                      ]);
                once = s.once;
                no_null = s.no_null;
                counted = rw (s.counted) refl;
              },
              others,
            )
    ]
