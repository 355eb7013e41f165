-- ===== src/Hash/Stored.antt =====
-- hash.c's table once a bucket is stored: with a new entry, a new value, or an entry fewer.
use unix_kernel.Base.{
  ℕ, ◌+◌, ◌-◌, ◌≡◌, ◌≢◌, refl, ap, ◌∙◌, subst, true, false, Bool-cases, inl, inr, Option, none,
  some, List, ◌∷◌, arith, ◌==◌, eq_of_==, length, if◌then◌else◌,
}
use unix_kernel.StHash.{Entry, find_entry, update_entry, delete_entry, set_bucket}
use unix_kernel.StHash.Buckets.{
  HasUniqueKeys, find_entry-update, find_entry-delete, HasUniqueKeys-update, HasUniqueKeys-delete,
  length-update, length-delete,
}
use unix_kernel.StHash.Counted.{length-le-total}
use unix_kernel.StHash.Laws.{held-set, found-length}
use unix_kernel.Hash.{Ht, hash_get_index, table_size, added, kept}
use unix_kernel.Hash.Buckets.{
  contents, buckets, held, IsHt, index-lt, contents-kept, kept-ne, contents-set, IsHt-set,
}

-- What a key has once a bucket is stored.
held-stored :
    (t : Ht) (key k : ℕ) (b : Option (List Entry)) (count : ℕ) (new : Option ℕ)
    → ((x : ℕ)
        → find_entry x (contents b)
          ≡ (if x == key then new else find_entry x (buckets t (hash_get_index key))))
    → held (record { entry_count = count; table = set_bucket t.table (hash_get_index key) b }) k
      ≡ (if k == key then new else held t k)
held-stored t key k b count new h =
    ap (λ f. find_entry k (f (hash_get_index k))) (contents-set t.table (hash_get_index key) b)
    ∙ held-set hash_get_index (buckets t) key k (contents b) new h

-- A new entry in front of its bucket.
pub added_lem :
    (t : Ht) (key value : ℕ) (bucket : List Entry)
    → IsHt t
    → buckets t (hash_get_index key) ≡ bucket
    → find_entry key bucket ≡ none
    → IsHt (added true t (hash_get_index key) key value bucket)
      × ((k : ℕ)
          → held (added true t (hash_get_index key) key value bucket) k
            ≡ (if k == key then some value else held t k))
added_lem t key value bucket s b f = (
  IsHt-set t (hash_get_index key) (some (record { key = key; value = value } ∷ bucket))
      (t.entry_count + 1) (index-lt key) s
      (f, subst HasUniqueKeys b (s.unique (hash_get_index key))) (λ e. ground arith)
      (let same = ap length b in omega arith),
  λ k.
      held-stored t key k (some (record { key = key; value = value } ∷ bucket)) (t.entry_count + 1)
        (some value) (λ x. rw b (unfold find_entry in refl)),
)

-- An entry whose value is replaced.
pub updated_lem :
    (t : Ht) (key value : ℕ) (bucket : List Entry) {old : ℕ}
    → IsHt t
    → buckets t (hash_get_index key) ≡ bucket
    → find_entry key bucket ≡ some old
    → IsHt (record t {
      table = set_bucket t.table (hash_get_index key) (some (update_entry key value bucket));
    })
      × ((k : ℕ)
          → held
              (record t {
                table =
                    set_bucket t.table (hash_get_index key) (some (update_entry key value bucket));
              })
              k
            ≡ (if k == key then some value else held t k))
updated_lem t key value bucket s b f = (
  IsHt-set t (hash_get_index key) (some (update_entry key value bucket)) t.entry_count
      (index-lt key) s
      (HasUniqueKeys-update key value bucket f
        (subst HasUniqueKeys b (s.unique (hash_get_index key))))
      (λ e.
        let same = length-update key value bucket in
        let some_there = found-length key bucket f in
        let none_there = ap (λ o. length (contents o)) e in omega arith)
      (let same = ap length b in let kept_length = length-update key value bucket in omega arith),
  λ k.
      held-stored t key k (some (update_entry key value bucket)) t.entry_count (some value)
        (λ x. rw b (find_entry-update key value x bucket f)),
)

-- The table once the entry of a key is taken out.
pub deleted_lem :
    (t : Ht) (key : ℕ) (bucket : List Entry) {old : ℕ}
    → IsHt t
    → buckets t (hash_get_index key) ≡ bucket
    → find_entry key bucket ≡ some old
    → (t.entry_count ≢ 0)
      × IsHt (record {
        entry_count = t.entry_count - 1;
        table = set_bucket t.table (hash_get_index key) (kept (delete_entry key bucket));
      })
      × ((k : ℕ)
          → held
              (record {
                entry_count = t.entry_count - 1;
                table = set_bucket t.table (hash_get_index key) (kept (delete_entry key bucket));
              })
              k
            ≡ (if k == key then none else held t k))
deleted_lem t key bucket s b f =
    let i = hash_get_index key in
    let u = subst HasUniqueKeys b (s.unique i) in
    let fewer = length-delete key bucket f in
    let same = ap length b in
    let le = length-le-total table_size (buckets t) i (index-lt key) in
    let is = s.counted in
    let left : length (contents (kept (delete_entry key bucket)))
        ≡ length (delete_entry key bucket) =
      ap length (contents-kept (delete_entry key bucket)) in
    (
      λ e. omega arith,
      IsHt-set t i (kept (delete_entry key bucket)) (t.entry_count - 1) (index-lt key) s
          (rw (contents-kept (delete_entry key bucket)) (HasUniqueKeys-delete key bucket u))
          (kept-ne (delete_entry key bucket)) (omega arith),
      λ k.
          held-stored t key k (kept (delete_entry key bucket)) (t.entry_count - 1) none (λ x.
            rw (contents-kept (delete_entry key bucket), b) (find_entry-delete key x bucket u)),
    )

-- Of a new key, a table keeps the count and loses the entry when enqueue fails.
pub lost_lem :
    (t : Ht) (key value : ℕ) (bucket : List Entry)
    → buckets t (hash_get_index key) ≡ bucket
    → (k : ℕ) → held (added false t (hash_get_index key) key value bucket) k ≡ held t k
unfolding set_bucket
lost_lem t key value bucket b k = elim (Bool-cases (hash_get_index k == hash_get_index key)) [
  | inl e ↦ rw (e, eq_of_== _ _ e, b) refl
  | inr e ↦ rw e refl
]
