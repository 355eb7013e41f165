-- ===== src/StHash/Counted.antt =====
-- The number of entries in the buckets of st_hash.c's table.
use unix_kernel.Base.{
  ℕ, zero, suc, ◌+◌, ◌≤◌, ◌<◌, ◌≡◌, refl, ap, Bool-cases, inl, inr, List, arith, ◌==◌, eq_of_==,
  ne_of_==, length, ==_of_ne,
}
use unix_kernel.StHash.{Entry, set_bucket}

-- In the first `n` buckets.
unfoldable pub total : ℕ → (ℕ → List Entry) → ℕ
total zero table = 0
total (suc n) table = total n table + length (table n)

total-outside :
    (n : ℕ) (table : ℕ → List Entry) (i : ℕ) (es : List Entry)
    → n ≤ i
    → total n (set_bucket table i es) ≡ total n table
unfolding total set_bucket
total-outside zero table i es le = refl
total-outside (suc n) table i es le =
    let rest = total-outside n table i es (omega arith) in
    let ne = ==_of_ne n i (omega arith) in ground arith

pub total-set :
    (n : ℕ) (table : ℕ → List Entry) (i : ℕ) (es : List Entry)
    → i < n
    → total n (set_bucket table i es) + length (table i) ≡ total n table + length es
unfolding total set_bucket
total-set zero table i es lt = ground arith
total-set (suc n) table i es lt = elim (Bool-cases (n == i)) [
  | inl e ↦
      let same = ap (λ x. length (table x)) (eq_of_== n i e) in
      let rest = total-outside n table i es (ground arith) in ground arith
  | inr e ↦
      let ne = ne_of_== n i e in let rest = total-set n table i es (omega arith) in ground arith
]

pub length-le-total :
    (n : ℕ) (table : ℕ → List Entry) (i : ℕ) → i < n → length (table i) ≤ total n table
unfolding total
length-le-total zero table i lt = ground arith
length-le-total (suc n) table i lt = elim (Bool-cases (n == i)) [
  | inl e ↦ let same = ap (λ x. length (table x)) (eq_of_== n i e) in omega arith
  | inr e ↦
      let ne = ne_of_== n i e in let rest = length-le-total n table i (omega arith) in omega arith
]
