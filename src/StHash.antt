-- ===== src/StHash.antt =====
-- kern/data_structure/st_hash.c: the hash table with chaining whose nodes the caller owns, so that
-- an insertion allocates nothing. A bucket is the list of its entries from the queue's head on, what
-- a queue of st_queue.c holds; the entry and the node that the caller hands over are in no bucket.
-- Keys are `unsigned long`, 32 bits; the compare function compares keys, as key_compare_tid and
-- key_compare_pid do. Values are addresses, 0 for NULL. A table pointer that is NULL only makes each
-- operation fail, and is not modelled; no bucket is NULL in a table that sht_new made.
pub mod Buckets
pub mod Counted
pub mod Laws
mod Tests
use unix_kernel.Base.{
  ℕ, zero, suc, ◌+◌, ◌-◌, ◌*◌, ◌/◌, ◌%◌, ◌^◌, bit_xor, Option, none, some, List, [], ◌∷◌, ℤ, pos,
  minus_one, ◌==◌, if◌then◌else◌,
}

-- `sht_entry_t`
pub record Entry : Type 0 where
  pub key : ℕ
  pub value : ℕ

pub record Sht : Type 0 where
  pub entry_count : ℕ
  pub table : ℕ → List Entry

abbrev pub st_table_size : ℕ
st_table_size = 257

abbrev pub sht_new : Sht
sht_new = record { entry_count = 0; table = λ _. [] }

-- One round of the mixing: `((key >> 16) ^ key) * 0x45d9f3b`.
unfoldable pub mix : ℕ → ℕ
mix key = bit_xor (key / 2 ^ 16) key * 0x45d9f3b % 2 ^ 32

-- The remainder is unsigned, so `-key` is taken only of 0.
unfoldable pub st_hash_get_index : ℕ → ℕ
unfolding mix
st_hash_get_index key = let mixed = mix (mix key) in bit_xor (mixed / 2 ^ 16) mixed % st_table_size

-- The value of the first entry with the key.
unfoldable pub find_entry : ℕ → List Entry → Option ℕ
find_entry key [] = none
find_entry key (e ∷ es) =
    let rest = find_entry key es in if key == e.key then some e.value else rest

-- That entry's value is replaced.
unfoldable pub update_entry : ℕ → ℕ → List Entry → List Entry
update_entry key value [] = []
update_entry key value (e ∷ es) =
    let rest = update_entry key value es in
    if key == e.key then record e { value = value } ∷ es else e ∷ rest

-- That entry is taken out.
unfoldable pub delete_entry : ℕ → List Entry → List Entry
delete_entry key [] = []
delete_entry key (e ∷ es) = let rest = delete_entry key es in if key == e.key then es else e ∷ rest

unfoldable pub set_bucket {ℓ} : {Bucket : Type ℓ} → (ℕ → Bucket) → ℕ → Bucket → ℕ → Bucket
set_bucket table i es j = if j == i then es else table j

unfoldable pub sht_insert : Sht → (key value : ℕ) → ℤ × Sht
sht_insert t key value =
    let index = st_hash_get_index key in
    let bucket = t.table index in
    elim (find_entry key bucket) [
      | none ↦ (
        pos 0,
        record {
          entry_count = t.entry_count + 1;
          table = set_bucket t.table index (record { key = key; value = value } ∷ bucket);
        },
      )
      | some old ↦ if old == value then (minus_one, t) else (
        pos 0,
        record t { table = set_bucket t.table index (update_entry key value bucket) },
      )
    ]

pub sht_delete : Sht → ℕ → ℕ × Sht
sht_delete t key =
    if t.entry_count == 0
    then (0, t)
    else (let index = st_hash_get_index key in
        let bucket = t.table index in
        elim (find_entry key bucket) [
          | none ↦ (0, t)
          | some old ↦ (
            old,
            record {
              entry_count = t.entry_count - 1;
              table = set_bucket t.table index (delete_entry key bucket);
            },
          )
        ])

unfoldable pub sht_lookup : Sht → ℕ → ℕ
sht_lookup t key =
    if t.entry_count == 0
    then 0
    else elim (find_entry key (t.table (st_hash_get_index key))) [ none ↦ 0 | some value ↦ value ]
