-- ===== src/Splay/Tests.antt =====
-- A splay tree of three thread ids.
use unix_kernel.Base.{true, false, ◌≡◌, ◌⊎◌, refl, none, some, List, [], ◌∷◌, ◌++◌, ℤ, pos, negsuc}
use unix_kernel.Splay.{
  Tree, leaf, node, Parent, st_splay, insert_at, rotate, st_insert, st_lookup, st_delete,
}
use unix_kernel.Splay.Keys.{tid_order, compare_tid}
use unix_kernel.Splay.Entries.{entries, entries_before, entries_after, st_splay_lem}
use unix_kernel.Splay.Sorted.{IsSorted, find, put, drop}
use unix_kernel.Splay.Laws.{st_insert_lem, st_lookup_lem, st_delete_lem}

abbrev three : Tree ℤ
three = node (node leaf (negsuc 0) 10 leaf) (pos 4) 40 (node leaf (pos 7) 70 leaf)

three-IsSorted : IsSorted (entries three)
unfolding entries compare_tid tid_order
three-IsSorted = ((refl, (refl, tt)), ((refl, tt), (tt, tt)))

inserted :
    st_insert true three (pos 5) 50
    ≡ some (
        node
          (node (node leaf (negsuc 0) 10 leaf) (pos 4) 40 leaf)
          (pos 5)
          50
          (node leaf (pos 7) 70 leaf))
unfolding st_insert compare_tid tid_order st_splay insert_at rotate
inserted = refl

abbrev above : List (Parent ℤ)
above =
    record { on_left = true; key = pos 7; value = 70; other = leaf }
    ∷ record { on_left = false; key = pos 4; value = 40; other = node leaf (negsuc 0) 10 leaf }
    ∷ []

st_splay_lem_example :
    (l : Tree ℤ) × (r : Tree ℤ) × (st_splay leaf (pos 5) 50 leaf above ≡ node l (pos 5) 50 r)
    × (entries l ≡ entries_before above ++ entries leaf)
    × (entries r ≡ entries leaf ++ entries_after above)
st_splay_lem_example = st_splay_lem leaf (pos 5) 50 leaf above

st_insert_lem_example :
    (st_insert false three (pos 5) 50 ≡ none)
    × ((t' : Tree ℤ) × (st_insert true three (pos 5) 50 ≡ some t')
        × (entries t' ≡ put (pos 5) 50 (entries three))
        × IsSorted (entries t'))
st_insert_lem_example = st_insert_lem three (pos 5) 50 three-IsSorted

st_lookup_lem_example :
    st_lookup three (pos 7) ≡ elim (find (pos 7) (entries three)) [ none ↦ 0 | some value ↦ value ]
st_lookup_lem_example = st_lookup_lem three (pos 7) three-IsSorted

st_delete_lem_example :
    ((find (pos 4) (entries three) ≡ none) × (st_delete three (pos 4) ≡ (0, three)))
    ⊎ ((find (pos 4) (entries three) ≡ some (st_delete three (pos 4)).0)
        × (entries (st_delete three (pos 4)).1 ≡ drop (pos 4) (entries three))
        × IsSorted (entries (st_delete three (pos 4)).1))
st_delete_lem_example = st_delete_lem three (pos 4) three-IsSorted
