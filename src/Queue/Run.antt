-- ===== src/Queue/Run.antt =====
-- Running the heap code step by step: a lemma for each operation, and one for the bind.
use unix_kernel.Base.{◌≡◌, ◌≢◌, Option, none, some, ==_of_ne}
use unix_kernel.Queue.Heap.{
  Ptr, null, Node, Heap, M, ◌>>=◌, write, load, fill, set_next, set_prev, free_node,
}

pub bind_lem :
    {A B : Type 0} (m : M A) (k : A → M B) {h g : Heap} {a : A} {r : Option (B × Heap)}
    → m h ≡ some (a, g)
    → k a g ≡ r
    → (m >>= k) h ≡ r
bind_lem m k p q = rw (p, ◌>>=◌) q

-- The heap with the field `next`, or `prev`, of the node at `p` set, if there is one.
unfoldable pub with_next : Heap → Ptr → Ptr → Heap
with_next h p q = elim (h p) [ none ↦ h | some e ↦ write h p (some (record e { next = q })) ]

unfoldable pub with_prev : Heap → Ptr → Ptr → Heap
with_prev h p q = elim (h p) [ none ↦ h | some e ↦ write h p (some (record e { prev = q })) ]

module _ (h : Heap) (p : Ptr) {e : Node} (ne : p ≢ null) (at : h p ≡ some e) where
  pub load_lem : load p h ≡ some (e, h)
  unfolding load
  load_lem = rw (==_of_ne p null ne, at)

  pub fill_lem : (e' : Node) → fill p e' h ≡ some (tt, write h p (some e'))
  unfolding fill
  fill_lem e' = rw (load_lem, fill)

  pub free_node_lem : free_node p h ≡ some (tt, write h p none)
  unfolding free_node
  free_node_lem = rw (load_lem, free_node)

  pub set_next_lem : (q : Ptr) → set_next p q h ≡ some (tt, with_next h p q)
  unfolding set_next with_next
  set_next_lem q =
      bind_lem (load p) _ load_lem (rw (at, with_next) (fill_lem (record e { next = q })))

  pub set_prev_lem : (q : Ptr) → set_prev p q h ≡ some (tt, with_prev h p q)
  unfolding set_prev with_prev
  set_prev_lem q =
      bind_lem (load p) _ load_lem (rw (at, with_prev) (fill_lem (record e { prev = q })))
