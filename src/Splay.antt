-- ===== src/Splay.antt =====
-- user/libthread/splay_tree.c. The nodes that hang below a node are a tree; a node with its parent
-- pointers is that node's tree and the path from it to the root. The tree's nodes are its own: a
-- node hangs below one parent, and no caller holds its address. Values are addresses, 0 for NULL.
-- `st->comp` is an instance argument.
pub mod Keys
pub mod Entries
pub mod Sorted
pub mod Laws
mod Tests
use Prim.Native.Nat.Ordering.{lt, eq, gt}
use unix_kernel.Base.{ℕ, Bool, true, false, Option, none, some, List, [], ◌∷◌, if◌then◌else◌}
use Keys.{Compare, sign}

-- `st_node`
pub data Tree {ℓ} (Key : Type ℓ) : Type ℓ where
  leaf : Tree Key
  node : Tree Key → (key : Key) → (value : ℕ) → Tree Key → Tree Key

-- The parent of a node: is the node its left child, its own fields, and its other child.
pub record Parent {ℓ} (Key : Type ℓ) : Type ℓ where
  pub on_left : Bool
  pub key : Key
  pub value : ℕ
  pub other : Tree Key

module _ {ℓ} {Key : Type ℓ} where
  -- The parent's tree once the node's tree is `t`.
  abbrev pub hang : Parent Key → Tree Key → Tree Key
  hang p t = if p.on_left then node t p.key p.value p.other else node p.other p.key p.value t

  -- The root's tree once the node's tree is `t`; the parents are listed from the node up.
  unfoldable pub plug : List (Parent Key) → Tree Key → Tree Key
  plug [] t = t
  plug (p ∷ up) t = plug up (hang p t)

  -- The children of the node once it has taken the place of its grandparent.
  unfoldable pub rotate : Parent Key → Parent Key → Tree Key → Tree Key → Tree Key × Tree Key
  rotate p g left right =
      if g.on_left
      then (if p.on_left
          then (left, node right p.key p.value (node p.other g.key g.value g.other))
          else (node p.other p.key p.value left, node right g.key g.value g.other))
      else (if p.on_left
          then (node g.other g.key g.value left, node right p.key p.value p.other)
          else (node (node g.other g.key g.value p.other) p.key p.value left, right))

  -- The root's tree; the first four arguments are the node's fields.
  unfoldable pub st_splay : Tree Key → Key → ℕ → Tree Key → List (Parent Key) → Tree Key
  st_splay left key value right [] = node left key value right
  st_splay left key value right (p ∷ []) =
      if p.on_left
      then node left key value (node right p.key p.value p.other)
      else node (node p.other p.key p.value left) key value right
  st_splay left key value right (p ∷ g ∷ up) =
      let (l, r) = rotate p g left right in st_splay l key value r up

  -- The least node of a tree, and the tree without it.
  unfoldable pub take_successor : Tree Key → Key → ℕ → Tree Key → Key × ℕ × Tree Key
  take_successor leaf key value right = (key, value, right)
  take_successor (node ll lk lv lr) key value right =
      let (k, v, rest) = take_successor ll lk lv lr in (k, v, node rest key value right)

  -- What is left of the tree whose root, with these children, is taken out.
  unfoldable pub join : Tree Key → Tree Key → Tree Key
  join left leaf = left
  join leaf (node rl rk rv rr) = node rl rk rv rr
  join (node ll lk lv lr) (node rl rk rv rr) =
      let (k, v, rest) = take_successor rl rk rv rr in node (node ll lk lv lr) k v rest

  pub st_new : (calloc_ok : Bool) → Option (Tree Key)
  st_new calloc_ok = if calloc_ok then some leaf else none

  pub st_empty : Tree Key → Bool
  st_empty leaf = true
  st_empty (node _ _ _ _) = false

module _ {ℓ} {Key : Type ℓ} ⦃o : Compare Key⦄ where
  -- The search from a node down. A key that is there has its value replaced; the new node, which is
  -- linked to nothing then, is splayed in vain.
  unfoldable pub insert_at : Tree Key → List (Parent Key) → Key → ℕ → Tree Key
  insert_at leaf up key value = st_splay leaf key value leaf up
  insert_at (node l k v r) up key value = elim (sign (o.comp key k)) [
    | lt ↦ insert_at l (record { on_left = true; key = k; value = v; other = r } ∷ up) key value
    | eq ↦ plug up (node l k value r)
    | gt ↦ insert_at r (record { on_left = false; key = k; value = v; other = l } ∷ up) key value
  ]

  -- `none` is the fault of writing through the NULL that calloc answered.
  pub st_insert : (calloc_ok : Bool) → Tree Key → Key → ℕ → Option (Tree Key)
  st_insert calloc_ok root key value =
      if calloc_ok then some (insert_at root [] key value) else none

  unfoldable pub st_lookup : Tree Key → Key → ℕ
  st_lookup leaf key = 0
  st_lookup (node l k v r) key = elim (sign (o.comp key k)) [
    | lt ↦ st_lookup l key
    | eq ↦ v
    | gt ↦ st_lookup r key
  ]

  unfoldable pub delete_root : Tree Key → Tree Key
  delete_root leaf = leaf
  delete_root (node l k v r) = join l r

  -- The search from a node down, for a key that is there.
  unfoldable pub delete_at : Tree Key → List (Parent Key) → Key → Option (ℕ × Tree Key)
  delete_at leaf up key = none
  delete_at (node l k v r) up key = elim (sign (o.comp key k)) [
    | lt ↦ delete_at l (record { on_left = true; key = k; value = v; other = r } ∷ up) key
    | eq ↦ some (v, delete_root (st_splay l k v r up))
    | gt ↦ delete_at r (record { on_left = false; key = k; value = v; other = l } ∷ up) key
  ]

  pub st_delete : Tree Key → Key → ℕ × Tree Key
  st_delete root key = elim (delete_at root [] key) [ none ↦ (0, root) | some found ↦ found ]
