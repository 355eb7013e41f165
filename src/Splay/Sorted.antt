-- ===== src/Splay/Sorted.antt =====
-- Lists of entries with ascending keys as maps: what a splay tree promises.
use Prim.Native.Nat.Ordering.{lt, eq, gt}
use unix_kernel.Base.{ℕ, ◌≡◌, refl, Option, none, some, List, [], ◌∷◌, ◌++◌, arith}
use unix_kernel.Splay.Keys.{Compare, sign, ◌≺◌}

module _ {ℓ} {Key : Type ℓ} ⦃o : Compare Key⦄ where
  -- Every key comes before, or after, the given one.
  abbrev pub AllBefore : Key → List (Key × ℕ) → Type 0
  AllBefore key [] = Unit
  AllBefore key (e ∷ es) = (e.0 ≺ key) × AllBefore key es

  abbrev pub AllAfter : Key → List (Key × ℕ) → Type 0
  AllAfter key [] = Unit
  AllAfter key (e ∷ es) = (key ≺ e.0) × AllAfter key es

  abbrev pub IsSorted : List (Key × ℕ) → Type 0
  IsSorted [] = Unit
  IsSorted (e ∷ es) = AllAfter e.0 es × IsSorted es

  unfoldable pub find : Key → List (Key × ℕ) → Option ℕ
  find key [] = none
  find key (e ∷ es) = elim (sign (o.comp key e.0)) [ lt ↦ none | eq ↦ some e.1 | gt ↦ find key es ]

  unfoldable pub put : Key → ℕ → List (Key × ℕ) → List (Key × ℕ)
  put key value [] = (key, value) ∷ []
  put key value (e ∷ es) = elim (sign (o.comp key e.0)) [
    | lt ↦ (key, value) ∷ e ∷ es
    | eq ↦ (e.0, value) ∷ es
    | gt ↦ e ∷ put key value es
  ]

  unfoldable pub drop : Key → List (Key × ℕ) → List (Key × ℕ)
  drop key [] = []
  drop key (e ∷ es) = elim (sign (o.comp key e.0)) [ lt ↦ e ∷ es | eq ↦ es | gt ↦ e ∷ drop key es ]

  pub AllAfter-trans : (a b : Key) (es : List (Key × ℕ)) → a ≺ b → AllAfter b es → AllAfter a es
  AllAfter-trans a b [] lo h = tt
  AllAfter-trans a b (e ∷ es) lo h = (o.lt_trans a b e.0 lo h.0, AllAfter-trans a b es lo h.1)

  pub AllBefore-trans : (a b : Key) (es : List (Key × ℕ)) → a ≺ b → AllBefore a es → AllBefore b es
  AllBefore-trans a b [] lo h = tt
  AllBefore-trans a b (e ∷ es) lo h = (o.lt_trans e.0 a b h.0 lo, AllBefore-trans a b es lo h.1)

  AllAfter-split :
      (a : Key) (low : List (Key × ℕ)) (e : Key × ℕ) (high : List (Key × ℕ))
      → AllAfter a (low ++ e ∷ high)
      → AllAfter a low × (a ≺ e.0)
  AllAfter-split a [] e high h = (tt, h.0)
  AllAfter-split a (x ∷ low) e high h =
      let (al, ae) = AllAfter-split a low e high h.1 in ((h.0, al), ae)

  -- A sorted list around one of its entries.
  pub IsSorted-split :
      (low : List (Key × ℕ)) (key : Key) (value : ℕ) (high : List (Key × ℕ))
      → IsSorted (low ++ (key, value) ∷ high)
      → IsSorted low × AllBefore key low × AllAfter key high × IsSorted high
  IsSorted-split [] key value high s = (tt, tt, s.0, s.1)
  IsSorted-split (e ∷ low) key value high s =
      let (sl, bl, ah, sh) = IsSorted-split low key value high s.1 in
      let (al, ak) = AllAfter-split e.0 low (key, value) high s.0 in ((al, sl), (ak, bl), ah, sh)

  -- What comes before the key is passed over.
  pub skip :
      (key : Key) (value : ℕ) (low high : List (Key × ℕ))
      → AllBefore key low
      → (find key (low ++ high) ≡ find key high)
        × (put key value (low ++ high) ≡ low ++ put key value high)
        × (drop key (low ++ high) ≡ low ++ drop key high)
  unfolding find put drop
  skip key value [] high h = (refl, refl, refl)
  skip key value (e ∷ low) high h =
      let (f, p, d) = skip key value low high h.1 in
      let later = o.gt_of_lt e.0 key h.0 in (ground arith, ground arith, ground arith)

  -- What comes after the key is left alone.
  pub stop :
      (key : Key) (value : ℕ) (low high : List (Key × ℕ))
      → AllAfter key high
      → (find key (low ++ high) ≡ find key low)
        × (put key value (low ++ high) ≡ put key value low ++ high)
        × (drop key (low ++ high) ≡ drop key low ++ high)
  unfolding find put drop
  stop key value [] [] h = (refl, refl, refl)
  stop key value [] (e ∷ high) h = (ground arith, ground arith, ground arith)
  stop key value (e ∷ low) high h =
      let rest = stop key value low high h in (ground arith, ground arith, ground arith)

  AllAfter-put :
      (a key : Key) (value : ℕ) (es : List (Key × ℕ))
      → a ≺ key
      → AllAfter a es
      → AllAfter a (put key value es)
  unfolding put
  AllAfter-put a key value [] lo h = (lo, tt)
  AllAfter-put a key value (e ∷ es) lo h = ground (arith, AllAfter-put a key value es lo)

  AllAfter-drop : (a key : Key) (es : List (Key × ℕ)) → AllAfter a es → AllAfter a (drop key es)
  unfolding drop
  AllAfter-drop a key [] h = tt
  AllAfter-drop a key (e ∷ es) h = ground (arith, AllAfter-drop a key es)

  pub put-IsSorted :
      (key : Key) (value : ℕ) (es : List (Key × ℕ)) → IsSorted es → IsSorted (put key value es)
  unfolding put
  put-IsSorted key value [] s = (tt, tt)
  put-IsSorted key value (e ∷ es) s = ground (
    arith,
    put-IsSorted key value es,
    AllAfter-put e.0 key value es,
    AllAfter-trans key e.0 es,
    o.lt_of_gt key e.0,
  )

  pub drop-IsSorted : (key : Key) (es : List (Key × ℕ)) → IsSorted es → IsSorted (drop key es)
  unfolding drop
  drop-IsSorted key [] s = tt
  drop-IsSorted key (e ∷ es) s = ground (arith, drop-IsSorted key es, AllAfter-drop e.0 key es)

  -- A key that comes before all others is not there.
  find-before : (key : Key) (es : List (Key × ℕ)) → AllAfter key es → find key es ≡ none
  unfolding find
  find-before key [] h = refl
  find-before key (e ∷ es) h = ground arith

  -- Of a sorted list in which a key's value is put, the key has that value, and every other key what
  -- it had.
  pub find-put :
      (key : Key) (value : ℕ) (k : Key) (es : List (Key × ℕ))
      → find k (put key value es)
        ≡ elim (sign (o.comp k key)) [ lt ↦ find k es | eq ↦ some value | gt ↦ find k es ]
  unfolding find put
  find-put key value k [] = ground arith
  find-put key value k (e ∷ es) = grind (
    arith,
    find-put key value k es,
    o.eq_of_same k key,
    o.eq_of_same k e.0,
    o.eq_of_same key e.0,
    o.lt_trans k key e.0,
    o.lt_trans key e.0 k,
    o.lt_of_gt key e.0,
    o.lt_of_gt k key,
    o.lt_of_gt k e.0,
    o.gt_of_lt k e.0,
    o.gt_of_lt key e.0,
    o.gt_of_lt k key,
    o.lt_trans k e.0 key,
    o.same key,
    o.same k,
    o.same e.0,
  )

  -- Of a sorted list from which a key is dropped, the key has no value, and every other key what it
  -- had.
  pub find-drop :
      (key k : Key) (es : List (Key × ℕ))
      → IsSorted es
      → find k (drop key es)
        ≡ elim (sign (o.comp k key)) [ lt ↦ find k es | eq ↦ none | gt ↦ find k es ]
  unfolding find drop
  find-drop key k [] s = ground arith
  find-drop key k (e ∷ es) s = grind (
    arith,
    find-drop key k es,
    find-before k es,
    AllAfter-trans k e.0 es,
    o.eq_of_same k key,
    o.eq_of_same k e.0,
    o.eq_of_same key e.0,
    o.lt_trans k key e.0,
    o.lt_trans key e.0 k,
    o.lt_of_gt key e.0,
    o.lt_of_gt k key,
    o.lt_of_gt k e.0,
    o.gt_of_lt k e.0,
    o.gt_of_lt key e.0,
    o.gt_of_lt k key,
    o.lt_trans k e.0 key,
    o.same key,
    o.same k,
    o.same e.0,
  )
