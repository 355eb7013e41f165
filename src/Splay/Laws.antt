-- ===== src/Splay/Laws.antt =====
-- splay_tree.c's tree as a map with ascending keys.
use Prim.Native.Nat.Ordering.{lt, eq, gt}
use unix_kernel.Base.{
  ℕ, true, false, subst, ◌≡◌, ◌⊎◌, inl, inr, refl, sym, ap, ◌∙◌, none, some, List, [], ◌∷◌, ◌++◌,
  append_assoc, append-nil, arith,
}
use unix_kernel.Splay.{
  Tree, leaf, node, Parent, join, delete_root, insert_at, st_insert, st_lookup, delete_at,
  st_delete,
}
use unix_kernel.Splay.Keys.{Compare, sign, sign-cases}
use unix_kernel.Splay.Entries.{
  entries, entries_before, entries_after, entries-plug, st_splay_lem, entries-join,
}
use unix_kernel.Splay.Sorted.{
  IsSorted, find, put, drop, AllBefore-trans, AllAfter-trans, IsSorted-split, skip, stop,
  put-IsSorted, drop-IsSorted,
}

module _ {ℓ} {Key : Type ℓ} ⦃o : Compare Key⦄ where
  -- The key is found, put and dropped in the part of a sorted list that it belongs to.
  in_low :
      (low : List (Key × ℕ)) (k : Key) (v : ℕ) (high : List (Key × ℕ)) (key : Key) (value : ℕ)
      → IsSorted (low ++ (k, v) ∷ high)
      → sign (o.comp key k) ≡ lt
      → (find key (low ++ (k, v) ∷ high) ≡ find key low)
        × (put key value (low ++ (k, v) ∷ high) ≡ put key value low ++ (k, v) ∷ high)
        × (drop key (low ++ (k, v) ∷ high) ≡ drop key low ++ (k, v) ∷ high)
  in_low low k v high key value s c =
      let (_, _, above, _) = IsSorted-split low k v high s in
      stop key value low ((k, v) ∷ high) (c, AllAfter-trans key k high c above)

  in_high :
      (low : List (Key × ℕ)) (k : Key) (v : ℕ) (high : List (Key × ℕ)) (key : Key) (value : ℕ)
      → IsSorted (low ++ (k, v) ∷ high)
      → sign (o.comp key k) ≡ gt
      → (find key (low ++ (k, v) ∷ high) ≡ find key high)
        × (put key value (low ++ (k, v) ∷ high) ≡ low ++ (k, v) ∷ put key value high)
        × (drop key (low ++ (k, v) ∷ high) ≡ low ++ (k, v) ∷ drop key high)
  unfolding find put drop
  in_high low k v high key value s c =
      let (_, below, _, _) = IsSorted-split low k v high s in
      let (f, p, d) =
        skip key value low ((k, v) ∷ high) (AllBefore-trans k key low (o.lt_of_gt key k c) below) in
      (f ∙ ground arith, p ∙ ground arith, d ∙ ground arith)

  at_key :
      (low : List (Key × ℕ)) (k : Key) (v : ℕ) (high : List (Key × ℕ)) (key : Key) (value : ℕ)
      → IsSorted (low ++ (k, v) ∷ high)
      → sign (o.comp key k) ≡ eq
      → (find key (low ++ (k, v) ∷ high) ≡ some v)
        × (put key value (low ++ (k, v) ∷ high) ≡ low ++ (k, value) ∷ high)
        × (drop key (low ++ (k, v) ∷ high) ≡ low ++ high)
  unfolding find put drop
  at_key low k v high key value s c =
      let (_, below, _, _) = IsSorted-split low k v high s in
      let same = o.eq_of_same key k c in
      let (f, p, d) = skip key value low ((k, v) ∷ high) (rw same below) in
      (f ∙ ground arith, p ∙ ground arith, d ∙ ground arith)

  insert_at_lem :
      (t : Tree Key) (up : List (Parent Key)) (key : Key) (value : ℕ)
      → IsSorted (entries t)
      → entries (insert_at t up key value)
        ≡ entries_before up ++ put key value (entries t) ++ entries_after up
  unfolding insert_at entries entries_before entries_after put
  insert_at_lem leaf up key value s =
      let (l, r, e, el, er) = st_splay_lem leaf key value leaf up in
      rw (e, el, er) simp (append_assoc, append-nil)
  insert_at_lem (node l k v r) up key value s =
      let (sl, _, _, sr) = IsSorted-split (entries l) k v (entries r) s in
      elim (sign-cases (o.comp key k)) [
        | inl c ↦
            let (_, p, _) = in_low (entries l) k v (entries r) key value s c in
            rw (insert_at, c, p, insert_at_lem l _ key value sl) simp append_assoc
        | inr (inl c) ↦
            let (_, p, _) = at_key (entries l) k v (entries r) key value s c in
            rw (insert_at, c, p, entries-plug up) simp append_assoc
        | inr (inr c) ↦
            let (_, p, _) = in_high (entries l) k v (entries r) key value s c in
            rw (insert_at, c, p, insert_at_lem r _ key value sr) simp append_assoc
      ]

  -- In a tree whose keys ascend, st_lookup answers the key's value, and NULL for a key that is not
  -- there.
  pub st_lookup_lem :
      (t : Tree Key) (key : Key)
      → IsSorted (entries t)
      → st_lookup t key ≡ elim (find key (entries t)) [ none ↦ 0 | some value ↦ value ]
  unfolding st_lookup entries find
  st_lookup_lem leaf key s = refl
  st_lookup_lem (node l k v r) key s =
      let (sl, _, _, sr) = IsSorted-split (entries l) k v (entries r) s in
      elim (sign-cases (o.comp key k)) [
        | inl c ↦
            let (f, _, _) = in_low (entries l) k v (entries r) key 0 s c in
            rw (st_lookup, c, f) (st_lookup_lem l key sl)
        | inr (inl c) ↦
            let (f, _, _) = at_key (entries l) k v (entries r) key 0 s c in
            rw (st_lookup, c, f) refl
        | inr (inr c) ↦
            let (f, _, _) = in_high (entries l) k v (entries r) key 0 s c in
            rw (st_lookup, c, f) (st_lookup_lem r key sr)
      ]

  -- What the search for a key to delete finds.
  delete_at_lem :
      (t : Tree Key) (up : List (Parent Key)) (key : Key)
      → IsSorted (entries t)
      → ((find key (entries t) ≡ none) × (delete_at t up key ≡ none))
        ⊎ ((v : ℕ) × (left : Tree Key) × (find key (entries t) ≡ some v)
            × (delete_at t up key ≡ some (v, left))
            × (entries left ≡ entries_before up ++ drop key (entries t) ++ entries_after up))
  unfolding delete_at delete_root entries entries_before entries_after find drop
  delete_at_lem leaf up key s = inl (refl, refl)
  delete_at_lem (node l k v r) up key s =
      let (sl, _, _, sr) = IsSorted-split (entries l) k v (entries r) s in
      elim (sign-cases (o.comp key k)) [
        | inl c ↦
            let (f, _, d) = in_low (entries l) k v (entries r) key 0 s c in
            elim (delete_at_lem l (record { on_left = true; key = k; value = v; other = r } ∷ up)
              key sl) [
                | inl (none_there, e) ↦ inl (f ∙ none_there, rw (delete_at, c) e)
                | inr (w, left, there, e, el) ↦
                    inr (w, left, f ∙ there, rw (delete_at, c) e, el ∙ rw d simp append_assoc)
              ]
        | inr (inl c) ↦
            let (f, _, d) = at_key (entries l) k v (entries r) key 0 s c in
            let (l', r', e, el, er) = st_splay_lem l k v r up in
            rw (delete_at, c, f, d)
              (inr (
                v,
                join l' r',
                refl,
                ap (λ t. some (v, delete_root t)) e,
                entries-join l' r' ∙ rw (el, er) simp append_assoc,
              ))
        | inr (inr c) ↦
            let (f, _, d) = in_high (entries l) k v (entries r) key 0 s c in
            elim (delete_at_lem r (record { on_left = false; key = k; value = v; other = l } ∷ up)
              key sr) [
                | inl (none_there, e) ↦ inl (f ∙ none_there, rw (delete_at, c) e)
                | inr (w, left, there, e, el) ↦
                    inr (w, left, f ∙ there, rw (delete_at, c) e, el ∙ rw d simp append_assoc)
              ]
      ]

  -- st_insert faults when calloc fails. Else it keeps the keys of the tree ascending, and the entries
  -- are those of before with the key's value put in its place.
  pub st_insert_lem :
      (t : Tree Key) (key : Key) (value : ℕ)
      → IsSorted (entries t)
      → (st_insert false t key value ≡ none)
        × ((t' : Tree Key) × (st_insert true t key value ≡ some t')
            × (entries t' ≡ put key value (entries t))
            × IsSorted (entries t'))
  unfolding st_insert entries_before entries_after
  st_insert_lem t key value s =
      let e : entries (insert_at t [] key value) ≡ put key value (entries t) =
        insert_at_lem t [] key value s ∙ append-nil _ in
      (
        refl,
        (
          insert_at t [] key value,
          refl,
          e,
          subst IsSorted (sym e) (put-IsSorted key value (entries t) s),
        ),
      )

  -- In a tree whose keys ascend, st_delete answers NULL and changes nothing for a key that is not
  -- there; else it answers the key's value, and takes that entry and no other from the tree, whose
  -- keys still ascend.
  pub st_delete_lem :
      (t : Tree Key) (key : Key)
      → IsSorted (entries t)
      → ((find key (entries t) ≡ none) × (st_delete t key ≡ (0, t)))
        ⊎ ((find key (entries t) ≡ some (st_delete t key).0)
            × (entries (st_delete t key).1 ≡ drop key (entries t))
            × IsSorted (entries (st_delete t key).1))
  unfolding st_delete entries_before entries_after
  st_delete_lem t key s = elim (delete_at_lem t [] key s) [
    | inl (none_there, e) ↦ inl (none_there, rw (st_delete, e) refl)
    | inr (v, left, there, e, el) ↦
        let dropped : entries left ≡ drop key (entries t) = el ∙ append-nil _ in
        rw (st_delete, e)
          (inr (there, dropped, subst IsSorted (sym dropped) (drop-IsSorted key (entries t) s)))
  ]

  -- A new key, once inserted, stands at the root.
  pub st_insert-root :
      (t : Tree Key) (up : List (Parent Key)) (key : Key) (value : ℕ)
      → find key (entries t) ≡ none
      → IsSorted (entries t)
      → (l : Tree Key) × (r : Tree Key) × (insert_at t up key value ≡ node l key value r)
  unfolding insert_at entries
  st_insert-root leaf up key value new s =
      let (l, r, e, _, _) = st_splay_lem leaf key value leaf up in (l, r, e)
  st_insert-root (node l k v r) up key value new s =
      let (sl, _, _, sr) = IsSorted-split (entries l) k v (entries r) s in
      elim (sign-cases (o.comp key k)) [
        | inl c ↦
            let (f, _, _) = in_low (entries l) k v (entries r) key 0 s c in
            rw (insert_at, c) (st_insert-root l _ key value (sym f ∙ new) sl)
        | inr (inl c) ↦
            let (f, _, _) = at_key (entries l) k v (entries r) key 0 s c in absurd (ground arith)
        | inr (inr c) ↦
            let (f, _, _) = in_high (entries l) k v (entries r) key 0 s c in
            rw (insert_at, c) (st_insert-root r _ key value (sym f ∙ new) sr)
      ]
