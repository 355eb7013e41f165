-- ===== src/Queue/Search.antt =====
-- The walks from head to tail, against plain recursion on the data of the queue.
use unix_kernel.Base.{
  ℕ, zero, suc, ◌+◌, ◌<◌, ◌≡◌, refl, ◌≢◌, ◌⊎◌, ◌∙◌, ap, Bool, true, false, some, [], ◌∷◌, arith,
  pos, if◌then◌else◌, ◌==◌, ==_of_ne, length, Bool-cases, inl, inr,
}
use unix_kernel.Queue.Heap.{Ptr, null, Node, Heap, Ends, ◌>>=◌, load, pure}
use unix_kernel.Queue.Run.{bind_lem, load_lem}
use unix_kernel.Queue.Links.{Cells, first, cell, Linked, IsQueue}
use unix_kernel.Queue.{
  search_from, queue_find, traverse_from, queue_traverse, count_from, queue_size,
}

-- The address of the first cell whose data passes the test, or NULL.
abbrev pub find_cell : (ℕ → Bool) → Cells → Ptr
find_cell test [] = null
find_cell test ((p, d) ∷ xs) = if test d then p else find_cell test xs

-- Its data, or NULL.
abbrev pub find_data : (ℕ → Bool) → Cells → ℕ
find_data test [] = null
find_data test ((p, d) ∷ xs) = if test d then d else find_data test xs

abbrev pub every : (ℕ → Bool) → Cells → Bool
every fn [] = true
every fn ((p, d) ∷ xs) = if fn d then every fn xs else false

module _ (h : Heap) where
  pub search_from_lem :
      (fuel : ℕ) (test : ℕ → Bool) (pv : Ptr) (xs : Cells)
      → length xs < fuel
      → Linked h pv null xs
      → search_from fuel test (first xs null) h ≡ some (find_cell test xs, h)
  unfolding search_from
  search_from_lem zero test pv xs f l = absurd (omega arith)
  search_from_lem (suc fuel) test pv [] f l = refl
  search_from_lem (suc fuel) test pv ((p, d) ∷ xs) f l =
      let rest = search_from_lem fuel test p xs (omega arith) l.2 in
      rw (==_of_ne p null l.0)
        (bind_lem (load p) _ (load_lem h p l.0 l.1) (found (Bool-cases (test d)) rest))
    where
      found :
          ((test d ≡ true) ⊎ (test d ≡ false))
          → search_from fuel test (first xs null) h ≡ some (find_cell test xs, h)
          → (if test d then pure p else search_from fuel test (first xs null)) h
            ≡ some (if test d then p else find_cell test xs, h)
      found (inl t) r = rw t refl
      found (inr t) r = rw t r

  pub traverse_from_lem :
      (fuel : ℕ) (fn : ℕ → Bool) (pv : Ptr) (xs : Cells)
      → length xs < fuel
      → Linked h pv null xs
      → traverse_from fuel fn (first xs null) h ≡ some (if every fn xs then pos 1 else pos 0, h)
  unfolding traverse_from
  traverse_from_lem zero fn pv xs f l = absurd (omega arith)
  traverse_from_lem (suc fuel) fn pv [] f l = refl
  traverse_from_lem (suc fuel) fn pv ((p, d) ∷ xs) f l =
      let rest = traverse_from_lem fuel fn p xs (omega arith) l.2 in
      rw (==_of_ne p null l.0)
        (bind_lem (load p) _ (load_lem h p l.0 l.1) (stopped (Bool-cases (fn d)) rest))
    where
      stopped :
          ((fn d ≡ true) ⊎ (fn d ≡ false))
          → traverse_from fuel fn (first xs null) h ≡ some (if every fn xs then pos 1 else pos 0, h)
          → (if fn d then traverse_from fuel fn (first xs null) else pure (pos 0)) h
            ≡ some (if (if fn d then every fn xs else false) then pos 1 else pos 0, h)
      stopped (inl t) r = rw t r
      stopped (inr t) r = rw t refl

  pub count_from_lem :
      (fuel acc : ℕ) (pv : Ptr) (xs : Cells)
      → length xs < fuel
      → Linked h pv null xs
      → count_from fuel acc (first xs null) h ≡ some (acc + length xs, h)
  unfolding count_from
  count_from_lem zero acc pv xs f l = absurd (omega arith)
  count_from_lem (suc fuel) acc pv [] f l = ap (λ k. some (k, h)) (omega arith)
  count_from_lem (suc fuel) acc pv ((p, d) ∷ xs) f l = rw (==_of_ne p null l.0) (
      bind_lem (load p) _ (load_lem h p l.0 l.1) (
        count_from_lem fuel (acc + 1) p xs (omega arith) l.2 ∙ ap (λ k. some (k, h)) (omega arith)))

  -- A cell that was found is one of the chain.
  pub find_cell-found :
      (test : ℕ → Bool) (pv : Ptr) (xs : Cells)
      → Linked h pv null xs
      → (find_cell test xs ≡ null) × (find_data test xs ≡ null)
        ⊎ (e : Node) × (find_cell test xs ≢ null)
          × (h (find_cell test xs) ≡ some e)
          × (e.payload ≡ find_data test xs)
  find_cell-found test pv [] l = inl (refl, refl)
  find_cell-found test pv ((p, d) ∷ xs) l = elim (Bool-cases (test d)) [
    | inl t ↦ rw t (inr (cell d (first xs null) pv, l.0, l.1, refl))
    | inr t ↦ rw t (find_cell-found test p xs l.2)
  ]

pub fetch_lem :
    (h : Heap) (test : ℕ → Bool) (pv : Ptr) (xs : Cells)
    → Linked h pv null xs
    → (if find_cell test xs == null
          then pure null
          else (load (find_cell test xs) >>= λ e. pure e.payload))
        h
      ≡ some (find_data test xs, h)
fetch_lem h test pv xs l = elim (find_cell-found h test pv xs l) [
  | inl (p, d) ↦ rw (p, d) refl
  | inr (e, ne, at, d) ↦ rw (==_of_ne _ null ne) (
      bind_lem (load (find_cell test xs)) _ (load_lem h (find_cell test xs) ne at)
        (ap (λ k. some (k, h)) d))
]

-- On a queue that holds `xs`, with more fuel than nodes: queue_find returns the data of the first
-- node from the head on that passes the test, and NULL if none does; queue_traverse returns 1 if
-- `fn` passes all data and 0 if not; queue_size returns the number of nodes. None of the three
-- faults or changes the heap.
pub walks_lem :
    {h : Heap} {q : Ends} {xs : Cells} (fuel : ℕ) (test : ℕ → Bool)
    → IsQueue h q xs
    → length xs < fuel
    → (queue_find fuel test (some q) h ≡ some (find_data test xs, h))
      × (queue_traverse fuel test (some q) h ≡ some (if every test xs then pos 1 else pos 0, h))
      × (queue_size fuel (some q) h ≡ some (pos (length xs), h))
unfolding queue_find queue_traverse queue_size
walks_lem {h} {q} {xs} fuel test is f = (
  rw is.head_is (
      bind_lem (search_from fuel test _) _ (search_from_lem h fuel test null xs f is.linked)
        (fetch_lem h test null xs is.linked)),
  rw is.head_is (traverse_from_lem h fuel test null xs f is.linked),
  rw is.head_is (
      bind_lem (count_from fuel 0 _) _ (count_from_lem h fuel 0 null xs f is.linked)
        (ap (λ k. some (pos k, h)) (omega arith))),
)
