-- ===== src/Loader/Args.antt =====
-- The argument vector that loader.c lays out on the stack of a new program.
use unix_kernel.Base.{
  ℕ, suc, ◌+◌, ◌-◌, ◌^◌, ◌≤◌, ◌<◌, ◌≡◌, ◌⊎◌, inl, inr, ◌∙◌, List, [], ◌∷◌, arith, length, some,
  none,
}
use unix_kernel.Loader.{Bytes, user_stack_base, page_size, store_word, main_args, main_stack}
use unix_kernel.Loader.Words.{load_word, store_word-other, load_word-store, IsString-same}
use unix_kernel.Loader.Vector.{
  IsArgv, load_word-same, args_end, room-reach, copied_argv, copied_argv-IsArgv, main_stack-fits,
  main_stack-faults,
}

-- An argument vector is still there where nothing from `low` on has changed.
IsArgv-same :
    (m m' : Bytes) (low array : ℕ) (ss : List (List ℕ))
    → low ≤ array
    → ((j : ℕ) → low ≤ j → m' j ≡ m j)
    → IsArgv m low array ss
    → IsArgv m' low array ss
IsArgv-same m m' low array [] below same h =
    load_word-same m m' array (λ j lo hi. same j (omega arith)) ∙ h
IsArgv-same m m' low array (s ∷ ss) below same (above, string, rest) =
    let pointer = load_word-same m m' array (λ j lo hi. same j (omega arith)) in
    (
      omega (arith, pointer),
      rw pointer
          (IsString-same m m' (load_word m array) s (λ j lo hi. same j (omega arith)) string),
      IsArgv-same m m' low (array + 4) ss (omega arith) same rest,
    )

load_word-other :
    (m : Bytes) (a v b : ℕ)
    → (b + 4 ≤ a) ⊎ (a + 4 ≤ b)
    → load_word (store_word m a v) b ≡ load_word m b
load_word-other m a v b h =
    load_word-same m (store_word m a v) b (λ j lo hi. store_word-other m a v j (ground arith))

-- The four arguments of `_main` above a return address at `b`.
abbrev below_args : Bytes → (b v w x y : ℕ) → Bytes
below_args m b v w x y =
    store_word (store_word (store_word (store_word m (b + 4) v) (b + 8) w) (b + 12) x) (b + 16) y

below_args_lem :
    (m : Bytes) (b v w x y : ℕ)
    → v < 2 ^ 32
    → w < 2 ^ 32
    → x < 2 ^ 32
    → y < 2 ^ 32
    → (load_word (below_args m b v w x y) (b + 4) ≡ v)
      × (load_word (below_args m b v w x y) (b + 8) ≡ w)
      × (load_word (below_args m b v w x y) (b + 12) ≡ x)
      × (load_word (below_args m b v w x y) (b + 16) ≡ y)
      × ((j : ℕ) → b + 20 ≤ j → below_args m b v w x y j ≡ m j)
below_args_lem m b v w x y hv hw hx hy =
    let m1 = store_word m (b + 4) v in
    let m2 = store_word m1 (b + 8) w in
    let m3 = store_word m2 (b + 12) x in
    (
      load_word-other m3 (b + 16) y (b + 4) (inl (omega arith))
          ∙ load_word-other m2 (b + 12) x (b + 4) (inl (omega arith))
          ∙ load_word-other m1 (b + 8) w (b + 4) (inl (omega arith))
          ∙ load_word-store m (b + 4) v hv,
      load_word-other m3 (b + 16) y (b + 8) (inl (omega arith))
          ∙ load_word-other m2 (b + 12) x (b + 8) (inl (omega arith))
          ∙ load_word-store m1 (b + 8) w hw,
      load_word-other m3 (b + 16) y (b + 12) (inl (omega arith)) ∙ load_word-store m2 (b + 12) x hx,
      load_word-store m3 (b + 16) y hy,
      λ j h.
          store_word-other m3 (b + 16) y j (inr (omega arith))
          ∙ store_word-other m2 (b + 12) x j (inr (omega arith))
          ∙ store_word-other m1 (b + 8) w j (inr (omega arith))
          ∙ store_word-other m (b + 4) v j (inr (omega arith)),
    )

-- When the argument vector, with its strings, ends in the page that is mapped from USER_STACK_BASE on:
-- on the stack that load_prog makes for `_main`, above its return address, stand the number of the
-- arguments, the address of a vector of pointers, the stack's highest and lowest address; and the
-- vector holds, in order, a pointer to a copy of each argument, the file name first, and NULL after
-- them. When the argument vector ends behind that page, the copy faults in the kernel.
pub main_stack_lem :
    (m : Bytes) (filename : List ℕ) (others : List (List ℕ))
    → (args_end filename others ≤ user_stack_base + page_size
        → (r : Bytes) × (main_stack m filename others ≡ some r)
          × (load_word r (user_stack_base + 4) ≡ suc (length others))
          × (load_word r (user_stack_base + 8) ≡ user_stack_base + 20)
          × (load_word r (user_stack_base + 12) ≡ user_stack_base + page_size)
          × (load_word r (user_stack_base + 16) ≡ user_stack_base - page_size)
          × IsArgv r (user_stack_base + 20) (user_stack_base + 20) (filename ∷ others))
      × (user_stack_base + page_size < args_end filename others
          → main_stack m filename others ≡ none)
unfolding main_args
main_stack_lem m filename others = (
  λ fit.
      let array = user_stack_base + 20 in
      let copied = copied_argv m array filename others in
      let (argc, argv, high, low, kept) =
        below_args_lem copied user_stack_base (suc (length others)) array
          (user_stack_base + page_size) (user_stack_base - page_size) (omega arith) (omega arith)
          (omega arith) (omega arith) in
      let close = room-reach others in
      (
        main_args (suc (length others)) array copied,
        main_stack-fits m filename others fit,
        argc,
        argv,
        high,
        low,
        IsArgv-same copied (main_args (suc (length others)) array copied) array array
            (filename ∷ others) (omega arith) kept
            (copied_argv-IsArgv m array filename others (omega arith)),
      ),
  main_stack-faults m filename others,
)
