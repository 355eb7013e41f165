-- ===== src/Loader/Saved.antt =====
-- save_argvec and free_argvec of loader.c: the copy of an argument vector in the kernel's memory.
-- `answers` says which of the next calls of calloc succeed, none once it has ended, and `live` is
-- how many blocks are allocated.
use unix_kernel.Base.{
  ℕ, suc, ◌+◌, ◌-◌, ◌≡◌, refl, ◌⊎◌, inl, inr, Bool, true, false, not, Option, none, some, List, [],
  ◌∷◌, arith, if◌then◌else◌, length,
}

pub record Heap : Type 0 where
  pub answers : List Bool
  pub live : ℕ

pub calloc_from : (answers : List Bool) → (live : ℕ) → Bool × Heap
calloc_from [] live = (false, record { answers = []; live = live })
calloc_from (a ∷ later) live = (a, record { answers = later; live = if a then suc live else live })

pub calloc : Heap → Bool × Heap
calloc h = calloc_from h.answers h.live

-- The loop over the strings; `done` of them are copied. A failure frees them and the array.
pub save_strings : Heap → (done : ℕ) → List (List ℕ) → Bool × Heap
save_strings h done [] = (true, h)
save_strings h done (s ∷ ss) =
    let (got, after) = calloc h in
    let rest = save_strings after (suc done) ss in
    if got then rest else (false, record after { live = after.live - suc done })

-- What there is to save.
abbrev pub saved_strings : (filename : List ℕ) → Option (List (List ℕ)) → List (List ℕ)
saved_strings filename none = filename ∷ []
saved_strings filename (some []) = filename ∷ []
saved_strings filename (some (s ∷ ss)) = s ∷ ss

-- Is there a vector, and no string in it?
abbrev pub no_strings : Option (List (List ℕ)) → Bool
no_strings none = false
no_strings (some []) = true
no_strings (some (s ∷ ss)) = false

-- Without strings count_argv answers -1: then the array has no slot, and the write of its first one
-- is outside of it, which `none` stands for.
pub save_argvec :
    Heap → (filename : List ℕ) → Option (List (List ℕ)) → Option (Option (List (List ℕ)) × Heap)
save_argvec h filename argvec =
    let strings = saved_strings filename argvec in
    let (array, after) = calloc h in
    let (saved, filled) = save_strings after 0 strings in
    if not array
    then some (none, after)
    else if not saved
    then some (none, filled)
    else if no_strings argvec
    then none
    else some (some strings, filled)

unfoldable pub free_argvec : Heap → List (List ℕ) → Heap
free_argvec h args = record h { live = h.live - suc (length args) }

calloc_lem :
    (h : Heap)
    → (((calloc h).0 ≡ true) × ((calloc h).1.live ≡ suc h.live))
      ⊎ (((calloc h).0 ≡ false) × ((calloc h).1.live ≡ h.live))
unfolding calloc calloc_from
calloc_lem h = from h.answers h.live
  where
    from :
        (answers : List Bool) (live : ℕ)
        → (((calloc_from answers live).0 ≡ true) × ((calloc_from answers live).1.live ≡ suc live))
          ⊎ (((calloc_from answers live).0 ≡ false) × ((calloc_from answers live).1.live ≡ live))
    from [] live = inr (refl, refl)
    from (true ∷ later) live = inl (refl, refl)
    from (false ∷ later) live = inr (refl, refl)

save_strings_lem :
    (h : Heap) (done base : ℕ) (ss : List (List ℕ))
    → h.live ≡ base + suc done
    → (((save_strings h done ss).0 ≡ true)
        × ((save_strings h done ss).1.live ≡ base + suc done + length ss))
      ⊎ (((save_strings h done ss).0 ≡ false) × ((save_strings h done ss).1.live ≡ base))
unfolding save_strings
save_strings_lem h done base [] e = inl (refl, omega arith)
save_strings_lem h done base (s ∷ ss) e = elim (calloc_lem h) [
  | inr (failed, live) ↦ rw failed (inr (refl, omega arith))
  | inl (got, live) ↦
      rw got (elim (save_strings_lem (calloc h).1 (suc done) base ss (omega arith)) [
        | inl (saved, more) ↦ inl (saved, omega arith)
        | inr (failed, back) ↦ inr (failed, back)
      ])
]

-- For NULL or a vector with a string, save_argvec answers the strings that it is given, or the file
-- name for NULL, with one block for each and one for the array, which free_argvec gives back; or, when
-- a call of calloc fails, NULL, with no more blocks than before.
pub save_argvec_lem :
    (h : Heap) (filename : List ℕ) (argvec : Option (List (List ℕ)))
    → no_strings argvec ≡ false
    → (after : Heap) × ((save_argvec h filename argvec
            ≡ some (some (saved_strings filename argvec), after))
          × (after.live ≡ h.live + suc (length (saved_strings filename argvec)))
          × ((free_argvec after (saved_strings filename argvec)).live ≡ h.live)
        ⊎ (save_argvec h filename argvec ≡ some (none, after)) × (after.live ≡ h.live))
unfolding save_argvec free_argvec
save_argvec_lem h filename argvec there =
    let strings = saved_strings filename argvec in
    elim (calloc_lem h) [
      | inr (failed, live) ↦ ((calloc h).1, rw failed (inr (refl, live)))
      | inl (array, live) ↦ elim (save_strings_lem (calloc h).1 0 h.live strings (omega arith)) [
        | inl (saved, more) ↦ (
          (save_strings (calloc h).1 0 strings).1,
          rw (array, saved, there) (inl (refl, omega arith, omega arith)),
        )
        | inr (failed, back) ↦
            ((save_strings (calloc h).1 0 strings).1, rw (array, failed) (inr (refl, back)))
      ]
    ]
