-- ===== src/CircBuf/Find.antt =====
-- The loop of `cb_find` and the answers of `cb_init`, in circ_buf.c.
use unix_kernel.Base.{
  ℕ, zero, suc, ◌+◌, ◌%◌, ◌<◌, ◌≡◌, refl, sym, ap, ◌∙◌, inl, inr, Bool, true, some, [], arith, ℤ,
  pos, if◌then◌else◌, has, Bool-cases, length-replicate,
}
use unix_kernel.CircBuf.{CircBuf, empty, fresh, advance, cb_init, find_from, cb_find}
use unix_kernel.CircBuf.Slots.{slots, wrap_cases, next_lt, shift_place}
use unix_kernel.CircBuf.Refine.{
  IsValid, count, contents, end_place, contents-empty, count-le-len, count-advance,
}

abbrev as_int : Bool → ℤ
as_int b = if b then pos 1 else pos 0

find_from-has :
    (fuel n : ℕ) (cb : CircBuf) (c i : ℕ)
    → i < cb.len
    → n < fuel
    → n < cb.len
    → cb.end ≡ (i + suc n) % cb.len
    → find_from fuel cb c i ≡ some (as_int (has c (slots cb.buf cb.len i (suc n))))
unfolding find_from
find_from-has zero n cb c i hi hf hn e = absurd (omega arith)
find_from-has (suc fuel) zero cb c i hi hf hn e = ground arith
find_from-has (suc fuel) (suc n) cb c i hi hf hn e = ground (
  arith,
  wrap_cases i 1 cb.len,
  wrap_cases i (suc (suc n)) cb.len,
  next_lt i cb.len hi,
  shift_place i (suc n) cb.len,
  find_from-has fuel n cb c ((i + 1) % cb.len),
)

-- On a valid buffer cb_find ends, with 1 if the character is among the contents and 0 if not.
pub cb_find_lem :
    {cb : CircBuf} (c : ℕ)
    → IsValid cb
    → cb_find (some cb) c ≡ some (if has c (contents cb) then pos 1 else pos 0)
unfolding cb_find contents
cb_find_lem {cb} c v = elim (Bool-cases (empty cb)) [
  | inl f ↦ simp (f, contents-empty v f)
  | inr f ↦ simp f (
      find_from-has cb.len (count (advance cb)) cb c cb.start v.start_in
        (omega (arith, count-advance v f, count-le-len v))
        (omega (arith, count-advance v f, count-le-len v))
        (end_place v ∙ ap (λ n. (cb.start + n) % cb.len) (count-advance v f))
      ∙ ap (λ n. some (as_int (has c (slots cb.buf cb.len cb.start n)))) (sym (count-advance v f)))
]

-- cb_init answers 0 exactly when the pointer is not NULL, the length is positive and both
-- allocations succeed; the buffer is then valid, has that length and is empty.
pub cb_init_lem :
    (cb : CircBuf) (n : ℕ) (calloc_ok mutex_ok : Bool)
    → ((cb_init (some cb) (pos n) calloc_ok mutex_ok).0 ≡ pos 0
        → (calloc_ok ≡ true) × (mutex_ok ≡ true) × (0 < n))
      × (0 < n
          → (new : CircBuf) × (cb_init (some cb) (pos n) true true ≡ (pos 0, some new))
            × IsValid new
            × (new.len ≡ n)
            × (contents new ≡ []))
unfolding cb_init
cb_init_lem cb n calloc_ok mutex_ok = (
  ground arith,
  λ h. (
    fresh n,
    ground arith,
    ground (arith, length-replicate {A = ℕ} n 0),
    refl,
    contents-empty (ground (arith, length-replicate {A = ℕ} n 0)) (unfold empty in ground arith),
  ),
)
