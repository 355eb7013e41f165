-- ===== src/Splay/Entries.antt =====
-- The entries of a splay tree in order, and how splaying and joining act on them.
use unix_kernel.Base.{
  ℕ, ◌≡◌, refl, sym, ◌∙◌, List, [], ◌∷◌, ◌++◌, append-nil, append_assoc, Bool-cases, inl, inr,
  if◌then◌else◌,
}
use unix_kernel.Splay.{Tree, leaf, node, Parent, plug, rotate, st_splay, take_successor, join}

module _ {ℓ} {Key : Type ℓ} where
  unfoldable pub entries : Tree Key → List (Key × ℕ)
  entries leaf = []
  entries (node l k v r) = entries l ++ (k, v) ∷ entries r

  -- The entries before and after those of a node, on the path from it to the root.
  unfoldable pub entries_before : List (Parent Key) → List (Key × ℕ)
  entries_before [] = []
  entries_before (p ∷ up) =
      if p.on_left
      then entries_before up
      else entries_before up ++ entries p.other ++ (p.key, p.value) ∷ []

  unfoldable pub entries_after : List (Parent Key) → List (Key × ℕ)
  entries_after [] = []
  entries_after (p ∷ up) =
      if p.on_left then (p.key, p.value) ∷ entries p.other ++ entries_after up else entries_after up

  pub entries-plug :
      (up : List (Parent Key)) (t : Tree Key)
      → entries (plug up t) ≡ entries_before up ++ entries t ++ entries_after up
  unfolding entries plug entries_before entries_after
  entries-plug [] t = sym (append-nil (entries t))
  entries-plug (p ∷ up) t = elim (Bool-cases p.on_left) [
    | inl e ↦ rw (e, entries-plug up _) simp append_assoc
    | inr e ↦ rw (e, entries-plug up _) simp append_assoc
  ]

  -- One double rotation moves the entries of the parent and the grandparent beside the node's.
  entries-rotate :
      (p g : Parent Key) (left right : Tree Key) (up : List (Parent Key))
      → (entries_before up ++ entries (rotate p g left right).0
          ≡ entries_before (p ∷ g ∷ up) ++ entries left)
        × (entries (rotate p g left right).1 ++ entries_after up
            ≡ entries right ++ entries_after (p ∷ g ∷ up))
  unfolding entries rotate entries_before entries_after
  entries-rotate p g left right up = elim (Bool-cases p.on_left) [
    | inl e ↦ elim (Bool-cases g.on_left) [
      | inl f ↦ (simp (e, f, entries, append_assoc), simp (e, f, entries, append_assoc))
      | inr f ↦ (simp (e, f, entries, append_assoc), simp (e, f, entries, append_assoc))
    ]
    | inr e ↦ elim (Bool-cases g.on_left) [
      | inl f ↦ (simp (e, f, entries, append_assoc), simp (e, f, entries, append_assoc))
      | inr f ↦ (simp (e, f, entries, append_assoc), simp (e, f, entries))
    ]
  ]

  -- st_splay brings the node to the root, and keeps the entries and their order: those before it
  -- are in the left child, those after it in the right one.
  pub st_splay_lem :
      (left : Tree Key) (key : Key) (value : ℕ) (right : Tree Key) (up : List (Parent Key))
      → (l : Tree Key) × (r : Tree Key) × (st_splay left key value right up ≡ node l key value r)
        × (entries l ≡ entries_before up ++ entries left)
        × (entries r ≡ entries right ++ entries_after up)
  unfolding st_splay entries_before entries_after entries
  st_splay_lem left key value right [] = (left, right, refl, refl, sym (append-nil (entries right)))
  st_splay_lem left key value right (p ∷ []) = elim (Bool-cases p.on_left) [
    | inl e ↦ (left, node right p.key p.value p.other, rw e refl, simp e, simp (e, append-nil))
    | inr e ↦ (
      node p.other p.key p.value left,
      right,
      rw e refl,
      simp (e, append_assoc),
      simp (e, append-nil),
    )
  ]
  st_splay_lem left key value right (p ∷ g ∷ up) =
      let (l, r) = rotate p g left right in
      let (low, high) = entries-rotate p g left right up in
      let (l', r', e, el, er) = st_splay_lem l key value r up in (l', r', e, el ∙ low, er ∙ high)

  entries-take_successor :
      (l : Tree Key) (k : Key) (v : ℕ) (r : Tree Key)
      → let (key, value, rest) = take_successor l k v r in
        entries l ++ (k, v) ∷ entries r ≡ (key, value) ∷ entries rest
  unfolding entries take_successor
  entries-take_successor leaf k v r = refl
  entries-take_successor (node ll lk lv lr) k v r =
      let rest = entries-take_successor ll lk lv lr in rw rest refl

  pub entries-join : (l r : Tree Key) → entries (join l r) ≡ entries l ++ entries r
  unfolding entries join
  entries-join leaf leaf = refl
  entries-join (node ll lk lv lr) leaf = sym (append-nil _)
  entries-join leaf (node rl rk rv rr) = refl
  entries-join (node ll lk lv lr) (node rl rk rv rr) =
      let rest = entries-take_successor rl rk rv rr in rw rest refl
