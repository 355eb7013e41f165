-- ===== src/Frame/Balance.antt =====
-- Each frame of user memory is free or in use, once: the balance that frame.c's functions keep.
use unix_kernel.Base.{
  ℕ, zero, suc, ◌+◌, ◌-◌, ◌*◌, ap, ◌∙◌, get_or, ◌≤◌, ◌<◌, ◌≡◌, ◌≢◌, refl, Bool-cases, Option-cases,
  inl, inr, ◌⊎◌, Option, none, some, List, [], ◌∷◌, arith, pos, ◌==◌, if◌then◌else◌, length,
}
use native.Mathlib.Nat.{suc-mul}
use unix_kernel.Sched.{take_last}
use unix_kernel.Sched.Places.{count, take_last-none}
use unix_kernel.Hash.Buckets.{held, IsHt}
use unix_kernel.Frame.{Frames, user_frames}

-- Does the table hold a reference count?
abbrev pub used : Option ℕ → ℕ
used none = 0
used (some refs) = 1

-- `owned` tells how many frames stand at an address: none or one.
pub record IsFrames (owned : ℕ → ℕ) (fr : Frames) : Type 0 where
  pub table : IsHt fr.allocated_frame_ht
  pub balance :
      (f : ℕ) → count f fr.free_frame_queue + used (held fr.allocated_frame_ht f) ≡ owned f
  pub once : (f : ℕ) → owned f ≤ 1
  pub no_null : owned 0 ≡ 0
  pub counted : fr.frame_count ≡ pos (length fr.free_frame_queue)

pub used-set :
    (k f : ℕ) (o new : Option ℕ)
    → used (if k == f then new else o) ≡ (if k == f then used new else used o)
used-set k f o new = elim (Bool-cases (k == f)) [ inl e ↦ rw e refl | inr e ↦ rw e refl ]

pub used-none : (o : Option ℕ) → used o ≡ 0 → o ≡ none
used-none none e = refl
used-none (some refs) e = ground arith

pub length-take_last :
    (xs ys : List ℕ) (y : ℕ) → take_last xs ≡ some (y, ys) → length xs ≡ suc (length ys)
unfolding take_last
length-take_last [] ys y e = ground arith
length-take_last (x ∷ xs) ys y e = elim (Option-cases (take_last xs)) [
  | inl n ↦ let z = take_last-none xs n in ground arith
  | inr ((z, zs), f) ↦ let rest = length-take_last xs zs z f in ground arith
]

-- Each address of the frames is enqueued once, and no other.
pub count-user_frames :
    (page_size n addr : ℕ) (queue : List ℕ) (f : ℕ)
    → 0 < page_size
    → (count f (user_frames page_size n addr queue) ≡ count f queue)
      ⊎ ((addr ≤ f) × (count f (user_frames page_size n addr queue) ≡ suc (count f queue)))
unfolding count user_frames
count-user_frames page_size zero addr queue f big = inl refl
count-user_frames page_size (suc n) addr queue f big =
    elim (count-user_frames page_size n (addr + page_size) (addr ∷ queue) f big) [
      | inl e ↦ elim (Bool-cases (f == addr)) [
        | inl q ↦ inr (ground arith, ground arith)
        | inr q ↦ inl (ground arith)
      ]
      | inr (le, e) ↦ let ne : f ≢ addr = (λ q. omega arith) in inr (omega arith, ground arith)
    ]

pub length-user_frames :
    (page_size n addr : ℕ) (queue : List ℕ)
    → length (user_frames page_size n addr queue) ≡ n + length queue
unfolding user_frames
length-user_frames page_size zero addr queue = omega arith
length-user_frames page_size (suc n) addr queue =
    let rest = length-user_frames page_size n (addr + page_size) (addr ∷ queue) in omega arith

-- The frames stand in the queue from the last one on.
user_frames-below :
    (page_size n addr j : ℕ) (queue : List ℕ)
    → get_or (user_frames page_size n addr queue) (n + j) 0 ≡ get_or queue j 0
unfolding user_frames
user_frames-below page_size zero addr j queue = ap (λ (k : ℕ). get_or queue k 0) (omega arith)
user_frames-below page_size (suc n) addr j queue =
    ap (λ (k : ℕ). get_or (user_frames page_size n (addr + page_size) (addr ∷ queue)) k 0)
      (let e : suc n + j ≡ n + suc j = omega arith in e)
    ∙ user_frames-below page_size n (addr + page_size) (suc j) (addr ∷ queue)

pub get_or-user_frames :
    (page_size n addr i : ℕ) (queue : List ℕ)
    → i < n
    → get_or (user_frames page_size n addr queue) (n - 1 - i) 0 ≡ addr + i * page_size
unfolding user_frames
get_or-user_frames page_size zero addr i queue less = absurd (omega arith)
get_or-user_frames page_size (suc n) addr zero queue less =
    ap (λ (k : ℕ). get_or (user_frames page_size n (addr + page_size) (addr ∷ queue)) k 0)
      (let e : suc n - 1 - 0 ≡ n + 0 = omega arith in e)
    ∙ user_frames-below page_size n (addr + page_size) 0 (addr ∷ queue)
    ∙ omega arith
get_or-user_frames page_size (suc n) addr (suc i) queue less =
    ap (λ (k : ℕ). get_or (user_frames page_size n (addr + page_size) (addr ∷ queue)) k 0)
      (let e : suc n - 1 - suc i ≡ n - 1 - i = omega arith in e)
    ∙ get_or-user_frames page_size n (addr + page_size) i (addr ∷ queue) (omega arith)
    ∙ omega (arith, suc-mul i page_size)
