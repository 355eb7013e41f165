-- ===== src/Loader/Words.antt =====
-- Words and strings in the bytes of Loader.
use unix_kernel.Base.{ℕ, ◌+◌, ◌*◌, ◌^◌, ◌≤◌, ◌<◌, ◌≡◌, ◌⊎◌, ◌∙◌, List, [], ◌∷◌, arith, length}
use unix_kernel.Loader.{Bytes, store_word, strcpy}

-- The word at an address.
abbrev pub load_word : Bytes → ℕ → ℕ
load_word m a = m a + 2 ^ 8 * m (a + 1) + 2 ^ 16 * m (a + 2) + 2 ^ 24 * m (a + 3)

-- The NUL-terminated string at an address.
abbrev pub IsString : Bytes → ℕ → List ℕ → Type 0
IsString m p [] = m p ≡ 0
IsString m p (c ∷ s) = (m p ≡ c) × IsString m (p + 1) s

pub store_word-other : (m : Bytes) (a v j : ℕ) → (j < a) ⊎ (a + 4 ≤ j) → store_word m a v j ≡ m j
unfolding store_word
store_word-other m a v j h = ground arith

pub load_word-store : (m : Bytes) (a v : ℕ) → v < 2 ^ 32 → load_word (store_word m a v) a ≡ v
unfolding store_word
load_word-store m a v h = ground arith

pub strcpy-other :
    (m : Bytes) (dest : ℕ) (s : List ℕ) (j : ℕ)
    → (j < dest) ⊎ (dest + length s < j)
    → strcpy m dest s j ≡ m j
unfolding strcpy
strcpy-other m dest [] j h = ground arith
strcpy-other m dest (c ∷ s) j h = ground (arith, strcpy-other m (dest + 1) s j)

-- A string is still there where its bytes are the same.
pub IsString-same :
    (m m' : Bytes) (p : ℕ) (s : List ℕ)
    → ((j : ℕ) → p ≤ j → j ≤ p + length s → m' j ≡ m j)
    → IsString m p s
    → IsString m' p s
IsString-same m m' p [] same h = same p (omega arith) (omega arith) ∙ h
IsString-same m m' p (c ∷ s) same (here, rest) = (
  same p (omega arith) (omega arith) ∙ here,
  IsString-same m m' (p + 1) s (λ j lo hi. same j (omega arith) (omega arith)) rest,
)

pub strcpy-IsString : (m : Bytes) (dest : ℕ) (s : List ℕ) → IsString (strcpy m dest s) dest s
unfolding strcpy
strcpy-IsString m dest [] = ground arith
strcpy-IsString m dest (c ∷ s) = (
  ground arith,
  IsString-same (strcpy m (dest + 1) s) (strcpy m dest (c ∷ s)) (dest + 1) s
      (λ j lo hi. ground arith) (strcpy-IsString m (dest + 1) s),
)
