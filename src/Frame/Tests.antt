-- ===== src/Frame/Tests.antt =====
-- Two frames, one of them in use.
use unix_kernel.Base.{
  Option, Bool, get_or, ◌*◌, ◌+◌, ◌<◌, ◌≤◌, ◌⊎◌, false, ℕ, ◌-◌, ◌≡◌, ◌≢◌, ◌∙◌, ap, refl, true, none,
  some, [], ◌∷◌, arith, pos, ◌==◌, if◌then◌else◌, length,
}
use unix_kernel.Sched.{take_last}
use unix_kernel.Sched.Places.{count}
use unix_kernel.Hash.{Ht}
use unix_kernel.Hash.Buckets.{held}
use unix_kernel.Hash.Tests.{empty, empty-IsHt, empty-held}
use unix_kernel.Frame.{
  Frames, dequeued, all_ok, frame_init, frame_alloc, frame_free, get_frame_refs, set_frame_refs,
}
use unix_kernel.Frame.Balance.{IsFrames}
use unix_kernel.Frame.Laws.{frame_alloc_lem, frame_free_lem}
use unix_kernel.Frame.Init.{frame_init_lem}
use unix_kernel.Frame.Refs.{set-held, set_frame_refs_lem}

abbrev two : Frames
two = record {
  free_frame_queue = 8192 ∷ 4096 ∷ [];
  allocated_frame_ht = empty;
  frame_count = pos 2;
}

abbrev pub owns : ℕ → ℕ
owns f = count f (8192 ∷ 4096 ∷ [])

frame_init_lem_example :
    ((new_ht : Option Ht) (init_ok : Bool)
      → (3 ≤ 1) ⊎ (new_ht ≡ none) ⊎ (init_ok ≡ false)
      → frame_init 4096 4096 3 1 new_ht init_ok ≡ none)
    × (1 < 3
        → (fr : Frames) × (frame_init 4096 4096 3 1 (some empty) true ≡ some fr)
          × (length fr.free_frame_queue ≡ 3 - 1)
          × ((i : ℕ) → i < 3 - 1 → get_or fr.free_frame_queue (3 - 1 - 1 - i) 0 ≡ 4096 + i * 4096)
          × IsFrames (λ f. count f fr.free_frame_queue) fr)
frame_init_lem_example =
    frame_init_lem 4096 4096 3 1 empty (omega arith) (omega arith) empty-IsHt empty-held

two-IsFrames : IsFrames owns two
unfolding count
two-IsFrames = record {
  table = empty-IsHt;
  balance = λ f. rw (empty-held f) omega arith;
  once = λ f. ground arith;
  no_null = refl;
  counted = refl;
}

abbrev older : ℕ
older = 4096

frame_alloc_lem_example :
    ((frame_alloc all_ok two).0 ≡ 4096)
    × (older ≢ 0)
    × IsFrames owns (frame_alloc all_ok two).1
    × (held two.allocated_frame_ht 4096 ≡ none)
    × ((f : ℕ)
        → held (frame_alloc all_ok two).1.allocated_frame_ht f
          ≡ (if f == 4096 then some 1 else held two.allocated_frame_ht f))
unfolding take_last
frame_alloc_lem_example = frame_alloc_lem owns two 4096 (8192 ∷ []) two-IsFrames refl

abbrev nothing : Frames
nothing = record { free_frame_queue = []; allocated_frame_ht = empty; frame_count = pos 0 }

nothing-IsFrames : IsFrames (λ f. 0) nothing
unfolding count
nothing-IsFrames = record {
  table = empty-IsHt;
  balance = λ f. rw (empty-held f) refl;
  once = λ f. omega arith;
  no_null = refl;
  counted = refl;
}

-- The frames once the older one is taken.
pub one : Frames
one = (frame_alloc all_ok two).1

pub one-IsFrames : IsFrames owns one
unfolding one take_last
one-IsFrames =
    let (_, _, is, _, _) = frame_alloc_lem owns two 4096 (8192 ∷ []) two-IsFrames refl in is

pub one-held : held one.allocated_frame_ht 4096 ≡ some 1
unfolding one take_last
one-held =
    let (_, _, _, _, others) = frame_alloc_lem owns two 4096 (8192 ∷ []) two-IsFrames refl in
    others 4096

frame_free_lem_example :
    ((frame_free true one 4096).free_frame_queue ≡ 4096 ∷ one.free_frame_queue)
    × IsFrames owns (frame_free true one 4096)
    × ((f : ℕ)
        → held (frame_free true one 4096).allocated_frame_ht f
          ≡ (if f == 4096 then none else held one.allocated_frame_ht f))
frame_free_lem_example = frame_free_lem owns one 4096 one-IsFrames one-held

pub one-all : (f : ℕ) → held one.allocated_frame_ht f ≡ (if f == 4096 then some 1 else none)
unfolding one take_last
one-all f =
    let (_, _, _, _, others) = frame_alloc_lem owns two 4096 (8192 ∷ []) two-IsFrames refl in
    others f ∙ ap (λ o. if f == 4096 then some 1 else o) (empty-held f)

-- Both references of the frame in use.
pub shared : Frames
shared = (set_frame_refs all_ok one 4096 (pos 2)).1

pub shared-IsFrames : IsFrames owns shared
unfolding shared
shared-IsFrames =
    let (_, is, _) =
      set_frame_refs_lem owns one 4096 1 2 one-IsFrames one-held (omega arith) (omega arith)
        (omega arith) in
    is

pub shared-refs : get_frame_refs shared 4096 ≡ pos 2
unfolding shared
shared-refs =
    let (_, _, refs) =
      set_frame_refs_lem owns one 4096 1 2 one-IsFrames one-held (omega arith) (omega arith)
        (omega arith) in
    refs 4096

-- The free frame is the one that a copy gets.
pub shared-next : (frame_alloc all_ok (set_frame_refs all_ok shared 4096 (pos 1)).1).0 ≡ 8192
unfolding shared one frame_alloc take_last
shared-next =
    let first = set-held one 4096 1 (pos 2) one-IsFrames.table one-held (λ z. ground arith) in
    let second =
      set-held shared 4096 2 (pos 1) shared-IsFrames.table (first.4 4096) (λ z. ground arith) in
    ap (λ q. (dequeued q (take_last q)).0) (second.1 ∙ first.1)
