-- ===== src/Hash/Buckets.antt =====
-- hash.c's table of buckets that may be NULL, seen as one of lists.
use unix_kernel.Base.{
  ℕ, ◌+◌, ◌<◌, ◌≡◌, ◌≢◌, refl, fun_ext, subst, sym, Bool-cases, inl, inr, Option, none, some, List,
  [], ◌∷◌, arith, ◌==◌, length,
}
use unix_kernel.StHash.{Entry, set_bucket, find_entry}
use unix_kernel.StHash.Buckets.{HasUniqueKeys}
use unix_kernel.StHash.Counted.{total, total-set}
use unix_kernel.StHash.Laws.{unique-set}
use unix_kernel.Hash.{Ht, table_size, hash_get_index, kept}

-- A NULL bucket has no entries.
abbrev pub contents : Option (List Entry) → List Entry
contents none = []
contents (some es) = es

abbrev pub buckets : Ht → ℕ → List Entry
buckets t i = contents (t.table i)

-- The value that the table holds for a key.
abbrev pub held : Ht → ℕ → Option ℕ
held t key = find_entry key (buckets t (hash_get_index key))

-- The count is that of the entries, keys are unique, and no bucket is an empty queue.
pub record IsHt (t : Ht) : Type 0 where
  pub counted : t.entry_count ≡ total table_size (buckets t)
  pub unique : (i : ℕ) → HasUniqueKeys (buckets t i)
  pub no_empty : (i : ℕ) → t.table i ≢ some []

pub index-lt : (key : ℕ) → hash_get_index key < 57
unfolding hash_get_index
index-lt key = omega arith

pub contents-kept : (es : List Entry) → contents (kept es) ≡ es
contents-kept [] = refl
contents-kept (e ∷ es) = refl

pub kept-ne : (es : List Entry) → kept es ≢ some []
kept-ne [] h = ground arith
kept-ne (e ∷ es) h = ground arith

pub contents-set :
    (table : ℕ → Option (List Entry)) (i : ℕ) (b : Option (List Entry))
    → (λ j. contents (set_bucket table i b j)) ≡ set_bucket (λ j. contents (table j)) i (contents b)
unfolding set_bucket
contents-set table i b =
    fun_ext (λ j. elim (Bool-cases (j == i)) [ inl e ↦ rw e refl | inr e ↦ rw e refl ])

no_empty-set :
    (table : ℕ → Option (List Entry)) (i : ℕ) (b : Option (List Entry)) (j : ℕ)
    → table j ≢ some []
    → b ≢ some []
    → set_bucket table i b j ≢ some []
unfolding set_bucket
no_empty-set table i b j old new = elim (Bool-cases (j == i)) [
  | inl e ↦ rw e new
  | inr e ↦ rw e old
]

-- The table once a bucket is stored, with the count that fits it.
pub IsHt-set :
    (t : Ht) (i : ℕ) (b : Option (List Entry)) (count : ℕ)
    → i < 57
    → IsHt t
    → HasUniqueKeys (contents b)
    → b ≢ some []
    → count + length (buckets t i) ≡ t.entry_count + length (contents b)
    → IsHt (record { entry_count = count; table = set_bucket t.table i b })
IsHt-set t i b count lt s u ne c = record {
  counted = rw (contents-set t.table i b) (
      let sum = total-set table_size (buckets t) i (contents b) lt in
      let was = s.counted in omega arith);
  unique = λ j.
      subst (λ f. HasUniqueKeys (f j)) (sym (contents-set t.table i b))
        (unique-set (buckets t) i (contents b) s.unique u j);
  no_empty = λ j. no_empty-set t.table i b j (s.no_empty j) ne;
}
