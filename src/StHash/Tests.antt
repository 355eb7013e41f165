-- ===== src/StHash/Tests.antt =====
-- The hash table of st_hash.c with one entry.
use unix_kernel.Base.{◌≡◌, refl, [], ◌∷◌}
use unix_kernel.StHash.{Sht, sht_new, st_hash_get_index, find_entry, set_bucket}
use unix_kernel.StHash.Laws.{IsSht, IsSht-set, index-lt, sht_new-IsSht}

abbrev single : Sht
single = record {
  entry_count = 1;
  table = set_bucket (λ _. []) (st_hash_get_index 5) (record { key = 5; value = 50 } ∷ []);
}

pub single-IsSht : IsSht single
unfolding find_entry
single-IsSht =
    IsSht-set sht_new (st_hash_get_index 5) _ 1 (index-lt 5) sht_new-IsSht (refl, tt) refl

zero_index : st_hash_get_index 0 ≡ 0
unfolding st_hash_get_index
zero_index = refl
