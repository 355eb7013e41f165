-- ===== src/CircBuf/Slots.antt =====
-- The characters that a circular buffer holds, oldest first, and how writes move them.
use native.Mathlib.Nat.{mod-add-mod, mod-eq_of_lt, mod-eq-sub-mod}
use native.Mathlib.Decide.{dec_lt}
use unix_kernel.Base.{
  ℕ, zero, suc, ◌+◌, ◌-◌, ◌%◌, ◌≤◌, ◌<◌, ◌≡◌, refl, ap, ap₂, ◌∙◌, ◌⊎◌, inl, inr, List, [], ◌∷◌,
  ◌++◌, arith, length, get_or, set, get_or-set_ne,
}

-- The position `m` places after `i`, without the division.
pub wrap_cases :
    (i m len : ℕ)
    → i < len
    → m ≤ len
    → ((i + m < len) × ((i + m) % len ≡ i + m)) ⊎ ((len ≤ i + m) × ((i + m) % len + len ≡ i + m))
wrap_cases i m len hi hm = elim (dec_lt (i + m) len) [
  | yes p ↦ inl (p, mod-eq_of_lt p)
  | no p ↦ inr (
    omega arith,
    omega (
      arith,
      mod-eq-sub-mod {n = i + m} {m = len} (omega arith),
      mod-eq_of_lt {n = i + m - len} {m = len} (omega arith),
    ),
  )
]

module _ (buf : List ℕ) (len : ℕ) where
  -- The `n` characters from index `i` on, going round at `len`.
  abbrev pub slots : ℕ → ℕ → List ℕ
  slots i zero = []
  slots i (suc n) = get_or buf i 0 ∷ slots ((i + 1) % len) n

  pub length-slots : (i n : ℕ) → length (slots i n) ≡ n
  length-slots i zero = refl
  length-slots i (suc n) = ap suc (length-slots ((i + 1) % len) n)

-- One step on, and `n` more, is `n + 1` steps on.
pub shift_place : (i n len : ℕ) → ((i + 1) % len + n) % len ≡ (i + suc n) % len
shift_place i n len = rw mod-add-mod (ap (λ k. k % len) (omega arith))

pub next_lt : (i len : ℕ) → i < len → (i + 1) % len < len
next_lt i len hi = omega (arith, wrap_cases i 1 len hi (omega arith))

-- The last of `n + 1` slots stands `n` places after the first.
pub slots-suc :
    (buf : List ℕ) (len i n : ℕ)
    → i < len
    → n < len
    → slots buf len i (suc n) ≡ slots buf len i n ++ get_or buf ((i + n) % len) 0 ∷ []
slots-suc buf len i zero hi hn =
    ap (λ k. get_or buf k 0 ∷ []) (omega (arith, wrap_cases i 0 len hi (omega arith)))
slots-suc buf len i (suc n) hi hn = ap (◌∷◌ (get_or buf i 0)) (
    slots-suc buf len ((i + 1) % len) n (next_lt i len hi) (omega arith)
    ∙ ap (λ k. slots buf len ((i + 1) % len) n ++ get_or buf k 0 ∷ []) (shift_place i n len))

-- A write `n` places after the first slot leaves the first `n` alone.
pub slots-set :
    (buf : List ℕ) (len c k i n : ℕ)
    → i < len
    → n < len
    → k ≡ (i + n) % len
    → slots (set buf k c) len i n ≡ slots buf len i n
slots-set buf len c k i zero hi hn e = refl
slots-set buf len c k i (suc n) hi hn e =
    ap₂ ◌∷◌ (get_or-set_ne buf k i c 0 (omega (arith, wrap_cases i (suc n) len hi (omega arith)))) (
      slots-set buf len c k ((i + 1) % len) n (next_lt i len hi) (omega arith)
        (omega (arith, shift_place i n len)))
