-- ===== src/Frame/Init.antt =====
-- frame_init of frame.c: which frames are free once it has ended.
use unix_kernel.Base.{
  get_or, Option-cases, ◌*◌, ◌+◌, ◌≤◌, ◌⊎◌, Option, Bool, ℕ, ◌-◌, ◌<◌, ◌≡◌, refl, sym, ap, ◌∙◌,
  true, false, Bool-cases, inl, inr, none, some, [], arith, pos, length, leb,
}
use unix_kernel.Sched.Places.{count}
use unix_kernel.Hash.{Ht}
use unix_kernel.Hash.Buckets.{held, IsHt}
use unix_kernel.Frame.{Frames, user_frames, frame_init}
use unix_kernel.Frame.Balance.{IsFrames, count-user_frames, length-user_frames, get_or-user_frames}

frame_init-fails :
    (user_mem_start page_size phys_frames kernel_frames : ℕ) (new_ht : Option Ht) (init_ok : Bool)
    → (phys_frames ≤ kernel_frames) ⊎ (new_ht ≡ none) ⊎ (init_ok ≡ false)
    → frame_init user_mem_start page_size phys_frames kernel_frames new_ht init_ok ≡ none
unfolding frame_init
frame_init-fails user_mem_start page_size phys_frames kernel_frames new_ht init_ok why =
    elim (Bool-cases (leb phys_frames kernel_frames)) [
      | inl few ↦ rw (frame_init, few) refl
      | inr enough ↦ elim why [
        | inl few ↦ absurd (ground arith)
        | inr (inl no_ht) ↦ rw (frame_init, enough, no_ht) refl
        | inr (inr failed) ↦ elim (Option-cases new_ht) [
          | inl no_ht ↦ rw (frame_init, enough, no_ht) refl
          | inr (ht, there) ↦ rw (frame_init, enough, there, failed) refl
        ]
      ]
    ]

frame_init-full :
    (user_mem_start page_size phys_frames kernel_frames : ℕ) (ht : Ht)
    → 0 < user_mem_start
    → 0 < page_size
    → IsHt ht
    → ((f : ℕ) → held ht f ≡ none)
    → kernel_frames < phys_frames
    → (fr : Frames) × (frame_init user_mem_start page_size phys_frames kernel_frames (some ht) true
        ≡ some fr)
      × (length fr.free_frame_queue ≡ phys_frames - kernel_frames)
      × ((i : ℕ)
          → i < phys_frames - kernel_frames
          → get_or fr.free_frame_queue (phys_frames - kernel_frames - 1 - i) 0
            ≡ user_mem_start + i * page_size)
      × IsFrames (λ f. count f fr.free_frame_queue) fr
unfolding frame_init count
frame_init-full user_mem_start page_size phys_frames kernel_frames ht above big s empty more =
    let n = phys_frames - kernel_frames in
    let queue = user_frames page_size n user_mem_start [] in
    let fr : Frames = record {
      free_frame_queue = queue;
      allocated_frame_ht = ht;
      frame_count = pos n;
    } in
    let size : length queue ≡ n = length-user_frames page_size n user_mem_start [] ∙ omega arith in
    let enough : leb phys_frames kernel_frames ≡ false = ground arith in
    (
      fr,
      rw (frame_init, enough) refl,
      size,
      λ i less. get_or-user_frames page_size n user_mem_start i [] less,
      record {
        table = s;
        balance = λ f. rw (empty f) omega arith;
        once = λ f. elim (count-user_frames page_size n user_mem_start [] f big) [
          | inl e ↦ omega arith
          | inr (_, e) ↦ omega arith
        ];
        no_null = elim (count-user_frames page_size n user_mem_start [] 0 big) [
          | inl e ↦ e
          | inr (le, _) ↦ absurd (omega arith)
        ];
        counted = ap pos (sym size);
      },
    )

-- For frames of a size above 0, the first at an address above 0, and an empty well-formed table:
-- frame_init fails when no frame is above the kernel's, or an allocation fails. Otherwise it ends with
-- one frame in the free queue for each of them, the `i`th from the tail at `i` times the size above
-- USER_MEM_START, so that the lowest is handed out first; each is free, once, and the count is theirs.
pub frame_init_lem :
    (user_mem_start page_size phys_frames kernel_frames : ℕ) (ht : Ht)
    → 0 < user_mem_start
    → 0 < page_size
    → IsHt ht
    → ((f : ℕ) → held ht f ≡ none)
    → ((new_ht : Option Ht) (init_ok : Bool)
        → (phys_frames ≤ kernel_frames) ⊎ (new_ht ≡ none) ⊎ (init_ok ≡ false)
        → frame_init user_mem_start page_size phys_frames kernel_frames new_ht init_ok ≡ none)
      × (kernel_frames < phys_frames
          → (fr : Frames) × (frame_init user_mem_start page_size phys_frames kernel_frames
                (some ht)
                true
              ≡ some fr)
            × (length fr.free_frame_queue ≡ phys_frames - kernel_frames)
            × ((i : ℕ)
                → i < phys_frames - kernel_frames
                → get_or fr.free_frame_queue (phys_frames - kernel_frames - 1 - i) 0
                  ≡ user_mem_start + i * page_size)
            × IsFrames (λ f. count f fr.free_frame_queue) fr)
frame_init_lem user_mem_start page_size phys_frames kernel_frames ht above big s empty = (
  frame_init-fails user_mem_start page_size phys_frames kernel_frames,
  frame_init-full user_mem_start page_size phys_frames kernel_frames ht above big s empty,
)
