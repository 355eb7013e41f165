-- ===== src/Hash.antt =====
-- kern/data_structure/hash.c and kern/inc/hash.h: the hash table with chaining that allocates its
-- entries and its buckets. A bucket is NULL or a queue, here the list of its entries from the head
-- on; `Entry` is st_hash.c's, which has the same fields. Keys are `unsigned long`, 32 bits, and the
-- compare function compares keys, as key_compare_frm does. Values are addresses or counts, 0 for
-- NULL. What calloc makes of an entry, what queue_new makes of a bucket and what enqueue makes of the
-- queue's node are arguments. A table pointer that is NULL only makes each operation fail, and is not
-- modelled. The table's mutex is its callers'.
pub mod Buckets
pub mod Stored
pub mod Laws
pub mod Walks
pub mod Tests
use unix_kernel.Base.{
  ℕ, zero, suc, ◌+◌, ◌-◌, ◌/◌, ◌%◌, ◌^◌, bit_xor, bit_and, Bool, true, false, not, Option, none,
  some, List, [], ◌∷◌, ℤ, pos, minus_one, ◌==◌, if◌then◌else◌,
}
use unix_kernel.StHash.{Entry, mix, find_entry, update_entry, delete_entry, set_bucket}

pub record Ht : Type 0 where
  pub entry_count : ℕ
  pub table : ℕ → Option (List Entry)

abbrev pub table_size : ℕ
table_size = 57

-- What calloc and mutex_init answer.
pub ht_new : (calloc_ok mutex_ok : Bool) → Option Ht
ht_new calloc_ok mutex_ok =
    if calloc_ok
    then (if mutex_ok then some (record { entry_count = 0; table = λ _. none }) else none)
    else none

-- The remainder is unsigned, so `-key` is taken only of 0.
pub hash_get_index : ℕ → ℕ
unfolding mix
hash_get_index key = let mixed = mix (mix key) in bit_xor (mixed / 2 ^ 16) mixed % table_size

-- ht_insert does not read what enqueue answers.
abbrev pub enqueue_entry : (node_ok : Bool) → Entry → List Entry → List Entry
enqueue_entry node_ok e es = if node_ok then e ∷ es else es

abbrev pub added : (node_ok : Bool) → Ht → (index key value : ℕ) → List Entry → Ht
added node_ok t index key value bucket = record {
  entry_count = t.entry_count + 1;
  table =
      set_bucket t.table index
        (some (enqueue_entry node_ok (record { key = key; value = value }) bucket));
}

pub ht_insert : (entry_ok queue_ok node_ok : Bool) → Ht → (key value : ℕ) → ℤ × Ht
ht_insert entry_ok queue_ok node_ok t key value =
    if not entry_ok
    then (minus_one, t)
    else (let index = hash_get_index key in
        elim (t.table index) [
          | none ↦
              if not queue_ok then (minus_one, t) else (pos 0, added node_ok t index key value [])
          | some bucket ↦ elim (find_entry key bucket) [
            | none ↦ (pos 0, added node_ok t index key value bucket)
            | some old ↦ if old == value then (minus_one, t) else (
              pos 0,
              record t { table = set_bucket t.table index (some (update_entry key value bucket)) },
            )
          ]
        ])

-- A queue that is left empty is destroyed.
abbrev pub kept : List Entry → Option (List Entry)
kept [] = none
kept (e ∷ es) = some (e ∷ es)

pub ht_delete : Ht → ℕ → ℕ × Ht
ht_delete t key =
    if t.entry_count == 0
    then (0, t)
    else (let index = hash_get_index key in
        elim (t.table index) [
          | none ↦ (0, t)
          | some bucket ↦ elim (find_entry key bucket) [
            | none ↦ (0, t)
            | some old ↦ (
              old,
              record {
                entry_count = t.entry_count - 1;
                table = set_bucket t.table index (kept (delete_entry key bucket));
              },
            )
          ]
        ])

pub ht_lookup : Ht → ℕ → ℕ
ht_lookup t key = if t.entry_count == 0 then 0 else elim (t.table (hash_get_index key)) [
  | none ↦ 0
  | some bucket ↦ elim (find_entry key bucket) [ none ↦ 0 | some value ↦ value ]
]

pub ht_empty : Ht → Bool
ht_empty t = t.entry_count == 0

pub ht_size : Ht → ℕ
ht_size t = t.entry_count

-- queue_find_true on the list of entries.
unfoldable pub first_true : (Entry → Bool) → List Entry → Option Entry
first_true fn [] = none
first_true fn (e ∷ es) = let rest = first_true fn es in if fn e then some e else rest

-- `rounds` buckets are left, from the index `i` on.
unfoldable pub ht_find_from : (rounds i : ℕ) → (Entry → Bool) → (ℕ → Option (List Entry)) → ℕ
ht_find_from zero i fn table = 0
ht_find_from (suc rounds) i fn table =
    let rest = ht_find_from rounds (i + 1) fn table in
    elim (table i) [
      | none ↦ rest
      | some bucket ↦ elim (first_true fn bucket) [ none ↦ rest | some e ↦ e.value ]
    ]

pub ht_find : Ht → (Entry → Bool) → ℕ
ht_find t fn = if t.entry_count == 0 then 0 else ht_find_from table_size 0 fn t.table

unfoldable pub ht_traverse_from : (rounds i : ℕ) → (Entry → Bool) → (ℕ → Option (List Entry)) → Bool
ht_traverse_from zero i fn table = true
ht_traverse_from (suc rounds) i fn table =
    let rest = ht_traverse_from rounds (i + 1) fn table in
    elim (table i) [
      | none ↦ rest
      | some bucket ↦ elim (first_true (λ e. not (fn e)) bucket) [ none ↦ rest | some _ ↦ false ]
    ]

-- `true` is 1; `fn` answers 0 to stop.
pub ht_traverse : Ht → (Entry → Bool) → Bool
ht_traverse t fn = if t.entry_count == 0 then true else ht_traverse_from table_size 0 fn t.table
