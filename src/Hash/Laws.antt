-- ===== src/Hash/Laws.antt =====
-- hash.c's table as a finite map from keys to values.
use unix_kernel.Base.{
  ℕ, ◌+◌, ◌≡◌, ◌≢◌, refl, sym, ap, ◌∙◌, Bool, true, false, Bool-cases, Option-cases, inl, inr, none,
  some, [], arith, pos, minus_one, ◌==◌, eq_of_==, ne_of_==, ==_of_ne, if◌then◌else◌, ◌⊎◌,
}
use unix_kernel.StHash.{find_entry}
use unix_kernel.Hash.{Ht, hash_get_index, ht_insert, ht_delete, ht_lookup}
use unix_kernel.Hash.Buckets.{contents, buckets, held, IsHt}
use unix_kernel.Hash.Stored.{added_lem, updated_lem, deleted_lem, lost_lem}

pub ht_insert-cases :
    (entry_ok queue_ok : Bool) (t : Ht) (key value : ℕ)
    → IsHt t
    → (((entry_ok ≡ false)
          ⊎ ((queue_ok ≡ false) × (t.table (hash_get_index key) ≡ none))
          ⊎ (held t key ≡ some value))
        × (ht_insert entry_ok queue_ok true t key value ≡ (minus_one, t)))
      ⊎ ((held t key ≢ some value)
          × ((ht_insert entry_ok queue_ok true t key value).0 ≡ pos 0)
          × IsHt (ht_insert entry_ok queue_ok true t key value).1
          × ((k : ℕ)
              → held (ht_insert entry_ok queue_ok true t key value).1 k
                ≡ (if k == key then some value else held t k)))
unfolding ht_insert
ht_insert-cases false queue_ok t key value s = inl (inl refl, refl)
ht_insert-cases true queue_ok t key value s =
    let i = hash_get_index key in
    elim (Option-cases (t.table i)) [
      | inl b ↦
          let empty : buckets t i ≡ [] = ap contents b in
          elim (Bool-cases queue_ok) [
            | inl q ↦
                let (is, others) = added_lem t key value [] s empty (unfold find_entry in refl) in
                inr (
                  rw empty (unfold find_entry in λ e. ground arith),
                  rw (ht_insert, b, q) refl,
                  rw (ht_insert, b, q) is,
                  rw (ht_insert, b, q) others,
                )
            | inr q ↦ inl (inr (inl (q, b)), rw (ht_insert, b, q) refl)
          ]
      | inr (bucket, b) ↦
          let there : buckets t i ≡ bucket = ap contents b in
          let found : held t key ≡ find_entry key bucket = ap (find_entry key) there in
          elim (Option-cases (find_entry key bucket)) [
            | inl f ↦
                let (is, others) = added_lem t key value bucket s there f in
                inr (
                  rw (found, f) (λ e. ground arith),
                  rw (ht_insert, b, f) refl,
                  rw (ht_insert, b, f) is,
                  rw (ht_insert, b, f) others,
                )
            | inr (old, f) ↦ elim (Bool-cases (old == value)) [
              | inl q ↦ inl (
                inr (inr (found ∙ f ∙ ap some (eq_of_== old value q))),
                rw (ht_insert, b, f, q) refl,
              )
              | inr q ↦
                  let (is, others) = updated_lem t key value bucket s there f in
                  inr (
                    rw (found, f) (λ e. ne_of_== old value q (ground arith)),
                    rw (ht_insert, b, f, q) refl,
                    rw (ht_insert, b, f, q) is,
                    rw (ht_insert, b, f, q) others,
                  )
            ]
          ]
    ]

-- When ht_insert fails: no entry, no bucket for a key whose bucket is NULL, or nothing to change.
abbrev pub Refused : (entry_ok queue_ok : Bool) → Ht → (key value : ℕ) → Type 0
Refused entry_ok queue_ok t key value =
    (entry_ok ≡ false)
    ⊎ ((queue_ok ≡ false) × (t.table (hash_get_index key) ≡ none))
    ⊎ (held t key ≡ some value)

same_value :
    (queue_ok : Bool) (t : Ht) (key value : ℕ)
    → held t key ≡ some value
    → ht_insert true queue_ok true t key value ≡ (minus_one, t)
unfolding ht_insert find_entry
same_value queue_ok t key value f = elim (Option-cases (t.table (hash_get_index key))) [
  | inl b ↦
      let none_there : held t key ≡ none = ap (λ x. find_entry key (contents x)) b in
      absurd (ground (arith, sym none_there ∙ f))
  | inr (bucket, b) ↦
      let found : find_entry key bucket ≡ some value =
        sym (ap (λ x. find_entry key (contents x)) b) ∙ f in
      let same : (value == value) ≡ true = ground arith in rw (ht_insert, b, found, same) refl
]

refused_lem :
    (entry_ok queue_ok : Bool) (t : Ht) (key value : ℕ)
    → Refused entry_ok queue_ok t key value
    → ht_insert entry_ok queue_ok true t key value ≡ (minus_one, t)
unfolding ht_insert
refused_lem false queue_ok t key value why = refl
refused_lem true queue_ok t key value (inl e) = ground arith
refused_lem true queue_ok t key value (inr (inl (q, b))) = rw (ht_insert, b, q) refl
refused_lem true queue_ok t key value (inr (inr f)) = same_value queue_ok t key value f

-- In a well-formed table, when enqueue gets its node: ht_insert answers -1 and changes nothing when the
-- entry cannot be allocated, or the key's bucket is NULL and cannot be allocated, or the key is
-- there with that same value. In every other case it answers 0, the table is well formed, the key has
-- the value, and every other key what it had.
pub ht_insert_lem :
    (entry_ok queue_ok : Bool) (t : Ht) (key value : ℕ)
    → IsHt t
    → (Refused entry_ok queue_ok t key value
        → ht_insert entry_ok queue_ok true t key value ≡ (minus_one, t))
      × ((Refused entry_ok queue_ok t key value → ⊥)
          → ((ht_insert entry_ok queue_ok true t key value).0 ≡ pos 0)
            × IsHt (ht_insert entry_ok queue_ok true t key value).1
            × ((k : ℕ)
                → held (ht_insert entry_ok queue_ok true t key value).1 k
                  ≡ (if k == key then some value else held t k)))
ht_insert_lem entry_ok queue_ok t key value s = (
  refused_lem entry_ok queue_ok t key value,
  λ accepted. elim (ht_insert-cases entry_ok queue_ok t key value s) [
    | inl (why, _) ↦ absurd (accepted why)
    | inr (_, done, well, others) ↦ (done, well, others)
  ],
)

-- For a new key, ht_insert answers 0 and counts an entry even when enqueue cannot get its node: no
-- key has gained a value then.
pub ht_insert-lost :
    (t : Ht) (key value : ℕ)
    → held t key ≡ none
    → ((ht_insert true true false t key value).0 ≡ pos 0)
      × ((ht_insert true true false t key value).1.entry_count ≡ t.entry_count + 1)
      × ((k : ℕ) → held (ht_insert true true false t key value).1 k ≡ held t k)
unfolding ht_insert
ht_insert-lost t key value f =
    let i = hash_get_index key in
    elim (Option-cases (t.table i)) [
      | inl b ↦
          let lost = lost_lem t key value [] (ap contents b) in
          (rw (ht_insert, b) refl, rw (ht_insert, b) refl, rw (ht_insert, b) lost)
      | inr (bucket, b) ↦
          let lost = lost_lem t key value bucket (ap contents b) in
          let none_there : find_entry key bucket ≡ none =
            sym (ap (λ x. find_entry key (contents x)) b) ∙ f in
          (
            rw (ht_insert, b, none_there) refl,
            rw (ht_insert, b, none_there) refl,
            rw (ht_insert, b, none_there) lost,
          )
    ]

count-ne-zero :
    (t : Ht) (key : ℕ) {old : ℕ} → IsHt t → held t key ≡ some old → (t.entry_count == 0) ≡ false
count-ne-zero t key s f =
    let (ne, _, _) = deleted_lem t key (buckets t (hash_get_index key)) s refl f in
    ==_of_ne t.entry_count 0 ne

-- In a well-formed table ht_lookup answers the value that the key has, and NULL for a key that has
-- none.
pub ht_lookup_lem :
    (t : Ht) (key : ℕ)
    → IsHt t
    → ht_lookup t key ≡ elim (held t key) [ none ↦ 0 | some value ↦ value ]
unfolding ht_lookup find_entry
ht_lookup_lem t key s = elim (Option-cases (held t key)) [
  | inl f ↦ elim (Bool-cases (t.entry_count == 0)) [
    | inl e ↦ rw (f, e) refl
    | inr e ↦ elim (Option-cases (t.table (hash_get_index key))) [
      | inl b ↦ rw (f, ht_lookup, e, b) refl
      | inr (bucket, b) ↦
          let none_there : find_entry key bucket ≡ none =
            sym (ap (λ x. find_entry key (contents x)) b) ∙ f in
          rw (f, ht_lookup, e, b, none_there) refl
    ]
  ]
  | inr (old, f) ↦ elim (Option-cases (t.table (hash_get_index key))) [
    | inl b ↦ absurd (let gone = sym f ∙ ap (λ x. find_entry key (contents x)) b in ground arith)
    | inr (bucket, b) ↦
        let there : find_entry key bucket ≡ some old =
          sym (ap (λ x. find_entry key (contents x)) b) ∙ f in
        rw (f, ht_lookup, count-ne-zero t key s f, b, there) refl
  ]
]

-- ht_delete keeps the table well formed. For a key that is not there it answers NULL and changes
-- nothing; else it answers the key's value, and the key then has none, and every other key what it
-- had.
pub ht_delete_lem :
    (t : Ht) (key : ℕ)
    → IsHt t
    → ((held t key ≡ none) × (ht_delete t key ≡ (0, t)))
      ⊎ ((held t key ≡ some (ht_delete t key).0)
          × IsHt (ht_delete t key).1
          × ((k : ℕ) → held (ht_delete t key).1 k ≡ (if k == key then none else held t k)))
unfolding ht_delete find_entry
ht_delete_lem t key s = elim (Option-cases (t.table (hash_get_index key))) [
  | inl b ↦ inl (
    ap (λ x. find_entry key (contents x)) b,
    elim (Bool-cases (t.entry_count == 0)) [
      | inl e ↦ rw (ht_delete, e) refl
      | inr e ↦ rw (ht_delete, e, b) refl
    ],
  )
  | inr (bucket, b) ↦
      let there : buckets t (hash_get_index key) ≡ bucket = ap contents b in
      let found : held t key ≡ find_entry key bucket = ap (find_entry key) there in
      elim (Option-cases (find_entry key bucket)) [
        | inl f ↦ inl (
          found ∙ f,
          elim (Bool-cases (t.entry_count == 0)) [
            | inl e ↦ rw (ht_delete, e) refl
            | inr e ↦ rw (ht_delete, e, b, f) refl
          ],
        )
        | inr (old, f) ↦
            let (ne, is, others) = deleted_lem t key bucket s there f in
            let e = ==_of_ne t.entry_count 0 ne in
            inr (
              rw (ht_delete, e, b, f) refl,
              rw (ht_delete, e, b, f) is,
              rw (ht_delete, e, b, f) others,
            )
      ]
]
