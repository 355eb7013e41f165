-- ===== src/StHash/Laws.antt =====
-- st_hash.c's table as a finite map from keys to values.
use unix_kernel.Base.{
  ℕ, ◌+◌, ◌-◌, ◌<◌, ◌≡◌, ◌≢◌, refl, false, ap, ◌∙◌, Bool-cases, Option-cases, inl, inr, Option,
  none, some, List, [], ◌∷◌, arith, pos, minus_one, ◌==◌, eq_of_==, ne_of_==, ==_of_ne, length,
  if◌then◌else◌, ◌⊎◌,
}
use unix_kernel.StHash.{
  Entry, Sht, sht_new, st_hash_get_index, find_entry, update_entry, delete_entry, set_bucket,
  sht_insert, sht_delete, sht_lookup, st_table_size,
}
use unix_kernel.StHash.Buckets.{
  HasUniqueKeys, find_entry-update, find_entry-delete, HasUniqueKeys-update, HasUniqueKeys-delete,
  length-update, length-delete,
}
use unix_kernel.StHash.Counted.{total, total-set, length-le-total}

-- The count is that of the entries, and keys are unique.
pub record IsSht (t : Sht) : Type 0 where
  pub counted : t.entry_count ≡ total st_table_size t.table
  pub unique : (i : ℕ) → HasUniqueKeys (t.table i)

-- The value that the table holds for a key.
abbrev pub held : Sht → ℕ → Option ℕ
held t key = find_entry key (t.table (st_hash_get_index key))

pub index-lt : (key : ℕ) → st_hash_get_index key < 257
unfolding st_hash_get_index
index-lt key = omega arith

pub found-length :
    (key : ℕ) (es : List Entry) {old : ℕ} → find_entry key es ≡ some old → 0 < length es
unfolding find_entry
found-length key [] f = ground arith
found-length key (e ∷ es) f = omega arith

-- What a key has once a bucket is stored, whatever the function from keys to indices.
pub held-set :
    (index : ℕ → ℕ) (table : ℕ → List Entry) (key k : ℕ) (es : List Entry) (new : Option ℕ)
    → ((x : ℕ) → find_entry x es ≡ (if x == key then new else find_entry x (table (index key))))
    → find_entry k (set_bucket table (index key) es (index k))
      ≡ (if k == key then new else find_entry k (table (index k)))
unfolding set_bucket
held-set index table key k es new h = elim (Bool-cases (index k == index key)) [
  | inl e ↦ rw (e, eq_of_== _ _ e) (h k)
  | inr e ↦
      let ne : (k == key) ≡ false = ==_of_ne k key (λ q. ne_of_== _ _ e (ap index q)) in
      rw (e, ne) refl
]

pub unique-set :
    (table : ℕ → List Entry) (i : ℕ) (es : List Entry)
    → ((j : ℕ) → HasUniqueKeys (table j))
    → HasUniqueKeys es
    → (j : ℕ) → HasUniqueKeys (set_bucket table i es j)
unfolding set_bucket
unique-set table i es u new j = elim (Bool-cases (j == i)) [ inl e ↦ rw e new | inr e ↦ rw e (u j) ]

pub sht_new-IsSht : IsSht sht_new
unfolding total
sht_new-IsSht = record { counted = refl; unique = λ i. tt }

-- The table once a bucket that holds one entry more, or as many, is stored.
pub IsSht-set :
    (t : Sht) (i : ℕ) (es : List Entry) (count : ℕ)
    → i < 257
    → IsSht t
    → HasUniqueKeys es
    → count + length (t.table i) ≡ t.entry_count + length es
    → IsSht (record { entry_count = count; table = set_bucket t.table i es })
IsSht-set t i es count lt s u c = record {
  counted = let sum = total-set st_table_size t.table i es lt in let was = s.counted in omega arith;
  unique = unique-set t.table i es s.unique u;
}

insert-absent :
    (t : Sht) (key value : ℕ)
    → held t key ≡ none
    → sht_insert t key value ≡ (
      pos 0,
      record {
        entry_count = t.entry_count + 1;
        table =
            set_bucket t.table
              (st_hash_get_index key)
              (record { key = key; value = value } ∷ t.table (st_hash_get_index key));
      },
    )
unfolding sht_insert
insert-absent t key value f = rw (sht_insert, f) refl

insert-present :
    (t : Sht) (key value : ℕ) {old : ℕ}
    → held t key ≡ some old
    → sht_insert t key value ≡ (
        if old == value then (minus_one, t) else (
          pos 0,
          record t {
            table =
                set_bucket t.table
                  (st_hash_get_index key)
                  (update_entry key value (t.table (st_hash_get_index key)));
          },
        ))
unfolding sht_insert
insert-present t key value f = rw (sht_insert, f) refl

-- sht_insert keeps the table well formed. It answers -1, and changes nothing, exactly when the key
-- is there with that same value; else it answers 0, and the key then has the value, and every other
-- key what it had.
pub sht_insert_lem :
    (t : Sht) (key value : ℕ)
    → IsSht t
    → ((held t key ≡ some value) × (sht_insert t key value ≡ (minus_one, t)))
      ⊎ ((held t key ≢ some value)
          × ((sht_insert t key value).0 ≡ pos 0)
          × IsSht (sht_insert t key value).1
          × ((k : ℕ)
              → held (sht_insert t key value).1 k ≡ (if k == key then some value else held t k)))
sht_insert_lem t key value s =
    let i = st_hash_get_index key in
    elim (Option-cases (held t key)) [
      | inl f ↦ rw (insert-absent t key value f) (
          inr (
            λ e. ground arith,
            refl,
            IsSht-set t i _ (t.entry_count + 1) (index-lt key) s (f, s.unique i) (omega arith),
            λ k.
                held-set st_hash_get_index t.table key k
                  (record { key = key; value = value } ∷ t.table i) (some value)
                  (λ x. unfold find_entry in refl),
          ))
      | inr (old, f) ↦ elim (Bool-cases (old == value)) [
        | inl q ↦
            rw (insert-present t key value f, q) (inl (f ∙ ap some (eq_of_== old value q), refl))
        | inr q ↦
            rw (insert-present t key value f, q)
              (inr (
                λ e. ground arith,
                refl,
                IsSht-set t i _ t.entry_count (index-lt key) s
                    (HasUniqueKeys-update key value (t.table i) f (s.unique i))
                    (let same = length-update key value (t.table i) in omega arith),
                λ k.
                    held-set st_hash_get_index t.table key k (update_entry key value (t.table i))
                      (some value) (λ x. find_entry-update key value x (t.table i) f),
              ))
      ]
    ]

-- In a well-formed table that holds a key, the count is not 0.
count-ne-zero :
    (t : Sht) (key : ℕ) {old : ℕ} → IsSht t → held t key ≡ some old → (t.entry_count == 0) ≡ false
count-ne-zero t key s f =
    let i = st_hash_get_index key in
    let some_there = found-length key (t.table i) f in
    let le = length-le-total st_table_size t.table i (index-lt key) in
    let is = s.counted in ==_of_ne t.entry_count 0 (omega arith)

-- In a well-formed table sht_lookup answers the value that the key has, and NULL for a key that has
-- none.
pub sht_lookup_lem :
    (t : Sht) (key : ℕ)
    → IsSht t
    → sht_lookup t key ≡ elim (held t key) [ none ↦ 0 | some value ↦ value ]
unfolding sht_lookup
sht_lookup_lem t key s = elim (Option-cases (held t key)) [
  | inl f ↦ elim (Bool-cases (t.entry_count == 0)) [
    | inl e ↦ rw (f, e) refl
    | inr e ↦ rw (f, e) refl
  ]
  | inr (old, f) ↦ rw (f, count-ne-zero t key s f) refl
]

delete-present :
    (t : Sht) (key : ℕ) {old : ℕ}
    → IsSht t
    → held t key ≡ some old
    → sht_delete t key ≡ (
      old,
      record {
        entry_count = t.entry_count - 1;
        table =
            set_bucket t.table
              (st_hash_get_index key)
              (delete_entry key (t.table (st_hash_get_index key)));
      },
    )
unfolding sht_delete
delete-present t key s f = rw (sht_delete, count-ne-zero t key s f, f) refl

-- sht_delete keeps the table well formed. For a key that is not there it answers NULL and changes
-- nothing; else it answers the key's value, and the key then has none, and every other key what it
-- had.
pub sht_delete_lem :
    (t : Sht) (key : ℕ)
    → IsSht t
    → ((held t key ≡ none) × (sht_delete t key ≡ (0, t)))
      ⊎ ((held t key ≡ some (sht_delete t key).0)
          × IsSht (sht_delete t key).1
          × ((k : ℕ) → held (sht_delete t key).1 k ≡ (if k == key then none else held t k)))
unfolding sht_delete
sht_delete_lem t key s =
    let i = st_hash_get_index key in
    elim (Option-cases (held t key)) [
      | inl f ↦ elim (Bool-cases (t.entry_count == 0)) [
        | inl e ↦ inl (f, rw (sht_delete, e) refl)
        | inr e ↦ inl (f, rw (sht_delete, e, f) refl)
      ]
      | inr (old, f) ↦ rw (delete-present t key s f) (
          inr (
            f,
            IsSht-set t i _ (t.entry_count - 1) (index-lt key) s
                (HasUniqueKeys-delete key (t.table i) (s.unique i))
                (let fewer = length-delete key (t.table i) f in
                  let ne = ne_of_== t.entry_count 0 (count-ne-zero t key s f) in omega arith),
            λ k.
                held-set st_hash_get_index t.table key k (delete_entry key (t.table i)) none
                  (λ x. find_entry-delete key x (t.table i) (s.unique i)),
          ))
    ]
