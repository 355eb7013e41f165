-- ===== src/Hash/Tests.antt =====
-- The hash table of hash.c with one entry.
use unix_kernel.Base.{
  ℕ, ◌+◌, ◌<◌, ◌≡◌, refl, true, false, none, some, [], ◌∷◌, pos, minus_one, ◌==◌, if◌then◌else◌,
  ◌⊎◌, arith,
}
use unix_kernel.StHash.{Entry, find_entry, set_bucket}
use unix_kernel.StHash.Counted.{total}
use unix_kernel.Hash.{Ht, ht_new, hash_get_index, first_true, ht_insert, ht_lookup, ht_find}
use unix_kernel.Hash.Buckets.{buckets, held, IsHt, IsHt-set, index-lt}
use unix_kernel.Hash.Laws.{Refused, ht_insert_lem, ht_insert-lost, ht_lookup_lem}
use unix_kernel.Hash.Walks.{ht_find_lem}

abbrev pub empty : Ht
empty = record { entry_count = 0; table = λ _. none }

empty-new : ht_new true true ≡ some empty
unfolding ht_new
empty-new = refl

pub empty-IsHt : IsHt empty
unfolding total
empty-IsHt = record { counted = refl; unique = λ i. tt; no_empty = λ i e. ground arith }

abbrev single : Ht
single = record {
  entry_count = 1;
  table = set_bucket (λ _. none) (hash_get_index 5) (some (record { key = 5; value = 50 } ∷ []));
}

single-IsHt : IsHt single
unfolding find_entry
single-IsHt =
    IsHt-set empty (hash_get_index 5) (some (record { key = 5; value = 50 } ∷ [])) 1 (index-lt 5)
      empty-IsHt (refl, tt) (λ e. ground arith) refl

ht_insert_lem_example :
    (Refused true false single 5 51 → ht_insert true false true single 5 51 ≡ (minus_one, single))
    × ((Refused true false single 5 51 → ⊥)
        → ((ht_insert true false true single 5 51).0 ≡ pos 0)
          × IsHt (ht_insert true false true single 5 51).1
          × ((k : ℕ)
              → held (ht_insert true false true single 5 51).1 k
                ≡ (if k == 5 then some 51 else held single k)))
ht_insert_lem_example = ht_insert_lem true false single 5 51 single-IsHt

ht_insert-lost_example :
    ((ht_insert true true false empty 5 50).0 ≡ pos 0)
    × ((ht_insert true true false empty 5 50).1.entry_count ≡ empty.entry_count + 1)
    × ((k : ℕ) → held (ht_insert true true false empty 5 50).1 k ≡ held empty k)
unfolding find_entry
ht_insert-lost_example = ht_insert-lost empty 5 50 refl

ht_lookup_lem_example : ht_lookup single 5 ≡ elim (held single 5) [ none ↦ 0 | some value ↦ value ]
ht_lookup_lem_example = ht_lookup_lem single 5 single-IsHt

ht_find_lem_example :
    (((j : ℕ) → j < 57 → first_true (λ e. e.value == 50) (buckets single j) ≡ none)
      × (ht_find single (λ e. e.value == 50) ≡ 0))
    ⊎ ((j : ℕ) × (e : Entry) × (j < 57)
        × (first_true (λ e. e.value == 50) (buckets single j) ≡ some e)
        × (ht_find single (λ e. e.value == 50) ≡ e.value))
ht_find_lem_example = ht_find_lem single (λ e. e.value == 50) single-IsHt

pub empty-held : (k : ℕ) → held empty k ≡ none
unfolding find_entry
empty-held k = refl
