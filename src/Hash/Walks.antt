-- ===== src/Hash/Walks.antt =====
-- The walks over hash.c's table, ht_find and ht_traverse.
use unix_kernel.Base.{
  ℕ, zero, suc, ◌+◌, ◌≤◌, ◌<◌, ◌≡◌, refl, ap, ◌∙◌, sym, Bool, true, Bool-cases, Option-cases, inl,
  inr, ◌⊎◌, none, some, List, [], ◌∷◌, arith, ◌==◌, length, eq_of_==,
}
use unix_kernel.StHash.{Entry}
use unix_kernel.StHash.Counted.{length-le-total}
use unix_kernel.Hash.{Ht, table_size, first_true, ht_find_from, ht_find}
use unix_kernel.Hash.Buckets.{contents, buckets, IsHt}

-- Where the walk from the index `i` on finds the first entry that passes.
ht_find_from_lem :
    (rounds i : ℕ) (fn : Entry → Bool) (t : Ht)
    → (((j : ℕ) → i ≤ j → j < i + rounds → first_true fn (buckets t j) ≡ none)
        × (ht_find_from rounds i fn t.table ≡ 0))
      ⊎ ((j : ℕ) × (e : Entry) × (i ≤ j)
          × (j < i + rounds)
          × (first_true fn (buckets t j) ≡ some e)
          × (ht_find_from rounds i fn t.table ≡ e.value))
unfolding first_true ht_find_from
ht_find_from_lem zero i fn t = inl (λ j le lt. absurd (omega arith), refl)
ht_find_from_lem (suc rounds) i fn t = elim (Option-cases (first_true fn (buckets t i))) [
  | inl f ↦ elim (ht_find_from_lem rounds (i + 1) fn t) [
    | inl (none_there, e) ↦ inl (
      λ j le lt. elim (Bool-cases (j == i)) [
        | inl q ↦ rw (eq_of_== j i q) f
        | inr q ↦ none_there j (ground arith) (omega arith)
      ],
      passed rounds i fn t f ∙ e,
    )
    | inr (j, e, le, lt, there, r) ↦
        inr (j, e, omega arith, omega arith, there, passed rounds i fn t f ∙ r)
  ]
  | inr (e, f) ↦ inr (i, e, omega arith, omega arith, f, met rounds i fn t f)
]
  where
    passed :
        (rounds i : ℕ) (fn : Entry → Bool) (t : Ht)
        → first_true fn (buckets t i) ≡ none
        → ht_find_from (suc rounds) i fn t.table ≡ ht_find_from rounds (i + 1) fn t.table
    passed rounds i fn t f = elim (Option-cases (t.table i)) [
      | inl b ↦ rw (ht_find_from, b) refl
      | inr (bucket, b) ↦
          let there : first_true fn bucket ≡ none =
            sym (ap (λ x. first_true fn (contents x)) b) ∙ f in
          rw (ht_find_from, b, there) refl
    ]

    met :
        (rounds i : ℕ) (fn : Entry → Bool) (t : Ht) {e : Entry}
        → first_true fn (buckets t i) ≡ some e
        → ht_find_from (suc rounds) i fn t.table ≡ e.value
    met rounds i fn t {e} f = elim (Option-cases (t.table i)) [
      | inl b ↦ absurd (let gone = sym f ∙ ap (λ x. first_true fn (contents x)) b in ground arith)
      | inr (bucket, b) ↦
          let there : first_true fn bucket ≡ some e =
            sym (ap (λ x. first_true fn (contents x)) b) ∙ f in
          rw (ht_find_from, b, there) refl
    ]

-- In a table with no entries every bucket is empty.
bucket-empty : (t : Ht) (i : ℕ) → IsHt t → (t.entry_count == 0) ≡ true → i < 57 → buckets t i ≡ []
bucket-empty t i s e lt = elim (Nil-cases (buckets t i)) [
  | inl q ↦ q
  | inr q ↦ absurd (
      let le = length-le-total table_size (buckets t) i lt in
      let is = s.counted in let zero_count = eq_of_== t.entry_count 0 e in omega arith)
]
  where
    Nil-cases : (es : List Entry) → (es ≡ []) ⊎ (0 < length es)
    Nil-cases [] = inl refl
    Nil-cases (x ∷ es) = inr (omega arith)

-- In a well-formed table ht_find answers the value of an entry that passes the test, and NULL when
-- no entry of any bucket passes.
pub ht_find_lem :
    (t : Ht) (fn : Entry → Bool)
    → IsHt t
    → (((j : ℕ) → j < 57 → first_true fn (buckets t j) ≡ none) × (ht_find t fn ≡ 0))
      ⊎ ((j : ℕ) × (e : Entry) × (j < 57)
          × (first_true fn (buckets t j) ≡ some e)
          × (ht_find t fn ≡ e.value))
unfolding ht_find first_true
ht_find_lem t fn s = elim (Bool-cases (t.entry_count == 0)) [
  | inl e ↦ inl (λ j lt. rw (bucket-empty t j s e lt) refl, rw (ht_find, e) refl)
  | inr e ↦
      rw (ht_find, e)
        (elim (ht_find_from_lem table_size 0 fn t) [
          | inl (none_there, r) ↦ inl (λ j lt. none_there j (omega arith) lt, r)
          | inr (j, x, _, lt, there, r) ↦ inr (j, x, lt, there, r)
        ])
]
