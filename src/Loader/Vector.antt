-- ===== src/Loader/Vector.antt =====
-- What copy_argv of loader.c writes, and where it ends.
use unix_kernel.Base.{
  ℕ, suc, ◌+◌, ◌*◌, ◌^◌, ◌≤◌, ◌<◌, ◌≡◌, ◌⊎◌, inl, inr, ◌∙◌, List, [], ◌∷◌, arith, length, true,
  false, some, none, leb, refl,
}
use unix_kernel.Loader.{
  Bytes, user_stack_base, page_size, store_word, strcpy, copy_rest, copy_argv, rest_fits, main_args,
  main_stack,
}
use unix_kernel.Loader.Words.{
  load_word, IsString, store_word-other, load_word-store, strcpy-other, IsString-same,
  strcpy-IsString,
}

-- At `array` stand a pointer to each string, none below `low`, and NULL after the last one.
abbrev pub IsArgv : Bytes → (low array : ℕ) → List (List ℕ) → Type 0
IsArgv m low array [] = load_word m array ≡ 0
IsArgv m low array (s ∷ ss) =
    (low ≤ load_word m array) × IsString m (load_word m array) s × IsArgv m low (array + 4) ss

-- The room that the loop of copy_argv takes for strings.
abbrev pub room : List (List ℕ) → ℕ
room [] = 0
room (s ∷ ss) = length s + 4 + room ss

pub load_word-same :
    (m m' : Bytes) (a : ℕ)
    → ((j : ℕ) → a ≤ j → j < a + 4 → m' j ≡ m j)
    → load_word m' a ≡ load_word m a
load_word-same m m' a same = omega (
  arith,
  same a (omega arith) (omega arith),
  same (a + 1) (omega arith) (omega arith),
  same (a + 2) (omega arith) (omega arith),
  same (a + 3) (omega arith) (omega arith),
)

-- The loop writes to the array and from `content` on, and nowhere else.
copy_rest-other :
    (m : Bytes) (array content : ℕ) (ss : List (List ℕ)) (j : ℕ)
    → (j < array) ⊎ (array + 4 * suc (length ss) ≤ j)
    → (j < content) ⊎ (content + room ss ≤ j)
    → copy_rest m array content ss j ≡ m j
unfolding copy_rest
copy_rest-other m array content [] j h k = store_word-other m array 0 j (ground arith)
copy_rest-other m array content (s ∷ ss) j h k =
    copy_rest-other (store_word (strcpy m content s) array content) (array + 4)
      (content + length s + 4) ss j (ground arith) (ground arith)
    ∙ store_word-other (strcpy m content s) array content j (ground arith)
    ∙ strcpy-other m content s j (ground arith)

-- The string that one round copies, and its pointer, are kept by the rounds behind it.
step-kept :
    (m : Bytes) (array content gap : ℕ) (s : List ℕ) (ss : List (List ℕ))
    → array + 4 + 4 * suc (length ss) ≤ content
    → 0 < gap
    → content + length s + gap + room ss < 2 ^ 32
    → let r =
        copy_rest
          (store_word (strcpy m content s) array content)
          (array + 4)
          (content + length s + gap)
          ss in
      (load_word r array ≡ content) × IsString r (load_word r array) s
step-kept m array content gap s ss apart some_gap small =
    let stored = store_word (strcpy m content s) array content in
    let r = copy_rest stored (array + 4) (content + length s + gap) ss in
    let pointer : load_word r array ≡ content =
      load_word-same stored r array (λ j lo hi.
        copy_rest-other stored (array + 4) (content + length s + gap) ss j (inl (omega arith))
          (inl (omega arith)))
      ∙ load_word-store (strcpy m content s) array content (omega arith) in
    (
      pointer,
      rw pointer (
          IsString-same (strcpy m content s) r content s
            (λ j lo hi.
              copy_rest-other stored (array + 4) (content + length s + gap) ss j (inr (omega arith))
                (inl (omega arith))
              ∙ store_word-other (strcpy m content s) array content j (inr (omega arith)))
            (strcpy-IsString m content s)),
    )

copy_rest-IsArgv :
    (m : Bytes) (low array content : ℕ) (ss : List (List ℕ))
    → low ≤ content
    → array + 4 * suc (length ss) ≤ content
    → content + room ss < 2 ^ 32
    → IsArgv (copy_rest m array content ss) low array ss
unfolding copy_rest
copy_rest-IsArgv m low array content [] above apart small = load_word-store m array 0 (omega arith)
copy_rest-IsArgv m low array content (s ∷ ss) above apart small =
    let (pointer, string) =
      step-kept m array content 4 s ss (omega arith) (omega arith) (omega arith) in
    (
      omega (arith, pointer),
      string,
      copy_rest-IsArgv (store_word (strcpy m content s) array content) low (array + 4)
          (content + length s + 4) ss (omega arith) (omega arith) (omega arith),
    )

-- How far the strings of the loop reach: the last one to its NUL.
abbrev pub reach : List (List ℕ) → ℕ
reach [] = 0
reach (s ∷ []) = length s + 1
reach (s ∷ t ∷ ss) = length s + 4 + reach (t ∷ ss)

-- The first address behind the argument vector on the stack, its strings included.
abbrev pub args_end : (filename : List ℕ) → (others : List (List ℕ)) → ℕ
args_end filename others =
    user_stack_base + 20 + 4 * (length others + 2) + length filename + 1 + reach others

pub room-reach : (ss : List (List ℕ)) → room ss ≤ reach ss + 3
room-reach [] = omega arith
room-reach (s ∷ []) = omega arith
room-reach (s ∷ t ∷ ss) = let rest = room-reach (t ∷ ss) in omega arith

fits_rest :
    (limit content : ℕ) (ss : List (List ℕ))
    → content + reach ss ≤ limit
    → rest_fits limit content ss ≡ true
unfolding rest_fits
fits_rest limit content [] fit = refl
fits_rest limit content (s ∷ []) fit = ground arith
fits_rest limit content (s ∷ t ∷ ss) fit =
    let rest = fits_rest limit (content + length s + 4) (t ∷ ss) (omega arith) in
    let here : leb (content + length s + 1) limit ≡ true = ground arith in rw (rest_fits, here) rest

no_fit :
    (limit content : ℕ) (s : List ℕ) (ss : List (List ℕ))
    → limit < content + reach (s ∷ ss)
    → rest_fits limit content (s ∷ ss) ≡ false
unfolding rest_fits
no_fit limit content s [] over = ground arith
no_fit limit content s (t ∷ ss) over =
    let rest = no_fit limit (content + length s + 4) t ss (omega arith) in ground arith

pub copied_argv : Bytes → (array : ℕ) → (filename : List ℕ) → (others : List (List ℕ)) → Bytes
copied_argv m array filename others =
    let content = array + 4 * (suc (length others) + 1) in
    copy_rest (store_word (strcpy m content filename) array content) (array + 4)
      (content + length filename + 1) others

pub copied_argv-IsArgv :
    (m : Bytes) (array : ℕ) (filename : List ℕ) (others : List (List ℕ))
    → array + 4 * (length others + 2) + length filename + 1 + room others < 2 ^ 32
    → IsArgv (copied_argv m array filename others) array array (filename ∷ others)
unfolding copied_argv
copied_argv-IsArgv m array filename others small =
    let content = array + 4 * (suc (length others) + 1) in
    let (pointer, string) =
      step-kept m array content 1 filename others (omega arith) (omega arith) (omega arith) in
    (
      omega (arith, pointer),
      string,
      copy_rest-IsArgv (store_word (strcpy m content filename) array content) array (array + 4)
          (content + length filename + 1) others (omega arith) (omega arith) (omega arith),
    )

pub main_stack-fits :
    (m : Bytes) (filename : List ℕ) (others : List (List ℕ))
    → args_end filename others ≤ user_stack_base + page_size
    → main_stack m filename others
      ≡ some (
          main_args
            (suc (length others))
            (user_stack_base + 20)
            (copied_argv m (user_stack_base + 20) filename others))
unfolding main_stack copy_argv copied_argv
main_stack-fits m filename others fit =
    let content = user_stack_base + 20 + 4 * (suc (length others) + 1) in
    let limit = user_stack_base + page_size in
    let rest = fits_rest limit (content + length filename + 1) others (omega arith) in
    let first : leb (content + length filename + 1) limit ≡ true = ground arith in
    rw (main_stack, copy_argv, rest, first) refl

pub main_stack-faults :
    (m : Bytes) (filename : List ℕ) (others : List (List ℕ))
    → user_stack_base + page_size < args_end filename others
    → main_stack m filename others ≡ none
unfolding main_stack copy_argv rest_fits
main_stack-faults m filename [] over =
    let limit = user_stack_base + page_size in
    let first : leb (user_stack_base + 20 + 4 * 2 + length filename + 1) limit ≡ false =
      ground arith in
    rw (main_stack, copy_argv, rest_fits, first) refl
main_stack-faults m filename (s ∷ ss) over =
    let content = user_stack_base + 20 + 4 * (suc (length (s ∷ ss)) + 1) in
    let limit = user_stack_base + page_size in
    let rest = no_fit limit (content + length filename + 1) s ss (omega arith) in
    rw (main_stack, copy_argv, rest) refl
