-- ===== src/StHash/Buckets.antt =====
-- One bucket of st_hash.c's table: what finding, updating and deleting an entry do to it.
use unix_kernel.Base.{
  ℕ, suc, ◌≡◌, refl, ap, ◌∙◌, Bool-cases, inl, inr, none, some, List, [], ◌∷◌, arith, ◌==◌,
  eq_of_==, length, if◌then◌else◌,
}
use unix_kernel.StHash.{Entry, find_entry, update_entry, delete_entry}

-- No two entries have the same key.
abbrev pub HasUniqueKeys : List Entry → Type 0
HasUniqueKeys [] = Unit
HasUniqueKeys (e ∷ es) = (find_entry e.key es ≡ none) × HasUniqueKeys es

pub find_entry-update :
    (key value k : ℕ) (es : List Entry) {old : ℕ}
    → find_entry key es ≡ some old
    → find_entry k (update_entry key value es) ≡ (if k == key then some value else find_entry k es)
unfolding find_entry update_entry
find_entry-update key value k [] f = ground arith
find_entry-update key value k (e ∷ es) {old} f = elim (Bool-cases (key == e.key)) [
  | inl q ↦ ground arith
  | inr q ↦
      let rest_f : find_entry key es ≡ some old = ground arith in
      let rest = find_entry-update key value k es rest_f in ground arith
]

pub find_entry-delete :
    (key k : ℕ) (es : List Entry)
    → HasUniqueKeys es
    → find_entry k (delete_entry key es) ≡ (if k == key then none else find_entry k es)
unfolding find_entry delete_entry
find_entry-delete key k [] u = ground arith
find_entry-delete key k (e ∷ es) (new, u) = elim (Bool-cases (key == e.key)) [
  | inl q ↦
      let at : find_entry key es ≡ none = ap (λ x. find_entry x es) (eq_of_== key e.key q) ∙ new in
      elim (Bool-cases (k == key)) [
        | inl p ↦
            let at' : find_entry k es ≡ none = ap (λ x. find_entry x es) (eq_of_== k key p) ∙ at in
            rw (q, p) at'
        | inr p ↦ ground arith
      ]
  | inr q ↦ let rest = find_entry-delete key k es u in ground arith
]

pub HasUniqueKeys-update :
    (key value : ℕ) (es : List Entry) {old : ℕ}
    → find_entry key es ≡ some old
    → HasUniqueKeys es
    → HasUniqueKeys (update_entry key value es)
unfolding find_entry update_entry
HasUniqueKeys-update key value [] f u = tt
HasUniqueKeys-update key value (e ∷ es) {old} f (new, u) = elim (Bool-cases (key == e.key)) [
  | inl q ↦ rw q (new, u)
  | inr q ↦
      let rest_f : find_entry key es ≡ some old = ground arith in
      let at = find_entry-update key value e.key es rest_f in
      rw q (ground arith, HasUniqueKeys-update key value es rest_f u)
]

pub HasUniqueKeys-delete :
    (key : ℕ) (es : List Entry) → HasUniqueKeys es → HasUniqueKeys (delete_entry key es)
unfolding find_entry delete_entry
HasUniqueKeys-delete key [] u = tt
HasUniqueKeys-delete key (e ∷ es) (new, u) = elim (Bool-cases (key == e.key)) [
  | inl q ↦ rw q u
  | inr q ↦
      let at = find_entry-delete key e.key es u in
      rw q (ground arith, HasUniqueKeys-delete key es u)
]

pub length-update :
    (key value : ℕ) (es : List Entry) → length (update_entry key value es) ≡ length es
unfolding update_entry
length-update key value [] = refl
length-update key value (e ∷ es) = let rest = length-update key value es in ground arith

pub length-delete :
    (key : ℕ) (es : List Entry) {old : ℕ}
    → find_entry key es ≡ some old
    → length es ≡ suc (length (delete_entry key es))
unfolding find_entry delete_entry
length-delete key [] f = ground arith
length-delete key (e ∷ es) {old} f = elim (Bool-cases (key == e.key)) [
  | inl q ↦ ground arith
  | inr q ↦
      let rest_f : find_entry key es ≡ some old = ground arith in
      let rest = length-delete key es rest_f in ground arith
]
