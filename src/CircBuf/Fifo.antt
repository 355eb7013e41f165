-- ===== src/CircBuf/Fifo.antt =====
-- What a circular buffer promises: a queue of at most `cap` characters, oldest first, that gives
-- up its newest character too.
use unix_kernel.Base.{
  ℕ, ◌≡◌, refl, List, [], ◌∷◌, ◌++◌, ℤ, pos, minus_one, ltb, if◌then◌else◌, length,
}

pub data Op : Type 0 where
  put : ℕ → Op
  get : Op
  delete_end : Op

-- What a caller sees: an `int`, a character, or, for `delete_end`, nothing it may rely on.
pub data Reply : Type 0 where
  status : ℤ → Reply
  char : ℕ → Reply
  unspecified : Reply

-- All but the newest.
unfoldable pub drop_newest : List ℕ → List ℕ
drop_newest [] = []
drop_newest (x ∷ []) = []
drop_newest (x ∷ y ∷ q) = x ∷ drop_newest (y ∷ q)

module _ (cap : ℕ) where
  unfoldable pub step : Op → List ℕ → Reply × List ℕ
  step (put c) q =
      if ltb (length q) cap then (status (pos 0), q ++ c ∷ []) else (status minus_one, q)
  step get [] = (char 255, [])
  step get (x ∷ q) = (char x, q)
  step delete_end q = (unspecified, drop_newest q)

  unfoldable pub run : List Op → List ℕ → List Reply
  run [] q = []
  run (op ∷ ops) q = let (r, q') = step op q in r ∷ run ops q'

  pub run-cons :
      (op : Op) (ops : List Op) (q : List ℕ)
      → run (op ∷ ops) q ≡ (step op q).0 ∷ run ops (step op q).1
  unfolding run
  run-cons op ops q = refl
