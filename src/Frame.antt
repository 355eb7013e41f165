-- ===== src/Frame.antt =====
-- kern/frame.c: the physical frames of user memory. `free_frame_queue` is the list of the free
-- frames' addresses from the queue's head on, so the oldest is last; Queue.Enqueue and Queue.Dequeue
-- relate such lists to the nodes in memory. `allocated_frame_ht` holds the reference count of each
-- frame in use, a word that an int is cast to. What calloc makes of the table's nodes is the argument
-- `HtAllocs`; machine_phys_frames() and the constants of the kernel's headers are the parameters of
-- frame_init. The mutexes frm_mp and frm_ref_mp are the callers': each function is one step.
pub mod Balance
pub mod Laws
pub mod Init
pub mod Refs
pub mod Tests
use unix_kernel.Base.{
  ℕ, zero, suc, ◌+◌, ◌-◌, ◌*◌, Bool, true, false, Option, none, some, List, [], ◌∷◌, ℤ, pos,
  minus_one, ◌==◌, leb, if◌then◌else◌, int_inc, int_dec, to_word, of_word,
}
use unix_kernel.Sched.{take_last}
use unix_kernel.Hash.{Ht, ht_insert, ht_delete, ht_lookup}

pub record Frames : Type 0 where
  pub free_frame_queue : List ℕ
  pub allocated_frame_ht : Ht
  pub frame_count : ℤ

-- Of ht_insert: can the entry, the bucket and the queue's node be allocated?
pub record HtAllocs : Type 0 where
  pub entry_ok : Bool
  pub queue_ok : Bool
  pub node_ok : Bool

abbrev pub all_ok : HtAllocs
all_ok = record { entry_ok = true; queue_ok = true; node_ok = true }

-- The queue once the frames from `addr` on, `n` of them, are enqueued.
unfoldable pub user_frames : (page_size n addr : ℕ) → List ℕ → List ℕ
user_frames page_size zero addr queue = queue
user_frames page_size (suc n) addr queue = user_frames page_size n (addr + page_size) (addr ∷ queue)

-- `kernel_frames` is `USER_MEM_START >> PAGE_SHIFT`; `new_ht` is what ht_new answers. The two
-- mutex_init and the queue's allocations are `init_ok`.
pub frame_init :
    (user_mem_start page_size phys_frames kernel_frames : ℕ)
    → Option Ht
    → (init_ok : Bool) → Option Frames
frame_init user_mem_start page_size phys_frames kernel_frames new_ht init_ok =
    if leb phys_frames kernel_frames then none else elim new_ht [
      | none ↦ none
      | some ht ↦
          if init_ok
          then some (record {
            free_frame_queue =
                user_frames page_size (phys_frames - kernel_frames) user_mem_start [];
            allocated_frame_ht = ht;
            frame_count = pos (phys_frames - kernel_frames);
          })
          else none
    ]

pub get_frame_refs : Frames → ℕ → ℤ
get_frame_refs fr frame =
    let refs = ht_lookup fr.allocated_frame_ht frame in
    if refs == 0 then minus_one else of_word refs

pub set_frame_refs : HtAllocs → Frames → ℕ → ℤ → ℤ × Frames
set_frame_refs ok fr frame refs =
    let (old, left) = ht_delete fr.allocated_frame_ht frame in
    if old == 0 then (minus_one, record fr { allocated_frame_ht = left }) else (
      pos 0,
      record fr {
        allocated_frame_ht =
            (ht_insert ok.entry_ok ok.queue_ok ok.node_ok left frame (to_word refs)).1;
      },
    )

-- What `dequeue` answers: NULL when the queue is empty.
abbrev pub dequeued : List ℕ → Option (ℕ × List ℕ) → ℕ × List ℕ
dequeued queue none = (0, queue)
dequeued queue (some taken) = taken

abbrev pub allocated : HtAllocs → Frames → ℕ × List ℕ → ℕ × Frames
allocated ok fr (frame, queue) = (
  frame,
  record {
    free_frame_queue = queue;
    allocated_frame_ht =
        (ht_insert ok.entry_ok ok.queue_ok ok.node_ok fr.allocated_frame_ht frame 1).1;
    frame_count = int_dec fr.frame_count;
  },
)

pub frame_alloc : HtAllocs → Frames → ℕ × Frames
frame_alloc ok fr = allocated ok fr (dequeued fr.free_frame_queue (take_last fr.free_frame_queue))

-- The answer of enqueue is not read: without its node the frame is in no list.
pub frame_free : (node_ok : Bool) → Frames → ℕ → Frames
frame_free node_ok fr frame = if frame == 0 then fr else record {
  free_frame_queue = if node_ok then frame ∷ fr.free_frame_queue else fr.free_frame_queue;
  allocated_frame_ht = (ht_delete fr.allocated_frame_ht frame).1;
  frame_count = int_inc fr.frame_count;
}

pub frame_get_count : Frames → ℤ
frame_get_count fr = fr.frame_count
