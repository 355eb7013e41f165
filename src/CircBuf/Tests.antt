-- ===== src/CircBuf/Tests.antt =====
-- Runs of the circular buffer, and the theorems at concrete buffers.
use unix_kernel.Base.{◌≡◌, refl, true, false, some, List, [], ◌∷◌, arith, pos, minus_one}
use unix_kernel.CircBuf.{CircBuf, cb_find}
use unix_kernel.CircBuf.Fifo
use unix_kernel.CircBuf.Fifo.{Op, put, get, delete_end, Reply, status, char, unspecified}
use unix_kernel.CircBuf.Refine.{IsValid, contents, run, run_refines}
use unix_kernel.CircBuf.Find.{cb_find_lem}

-- 7, then 8, round the end of the storage.
abbrev wrapped : CircBuf
wrapped = record { buf = 8 ∷ 5 ∷ 7 ∷ []; len = 3; start = 2; end = 1; full = false }

abbrev packed : CircBuf
packed = record { buf = 8 ∷ 9 ∷ 7 ∷ []; len = 3; start = 2; end = 2; full = true }

abbrev script : List Op
script = put 1 ∷ put 2 ∷ delete_end ∷ get ∷ get ∷ get ∷ []

wrapped-IsValid : IsValid wrapped
wrapped-IsValid = ground arith

packed-IsValid : IsValid packed
packed-IsValid = ground arith

contents-packed : contents packed ≡ 7 ∷ 8 ∷ 9 ∷ []
unfolding contents
contents-packed = refl

script_replies :
    Fifo.run 3 script (7 ∷ 8 ∷ [])
    ≡ status (pos 0) ∷ status minus_one ∷ unspecified ∷ char 7 ∷ char 8 ∷ char 255 ∷ []
unfolding Fifo.run Fifo.step Fifo.drop_newest
script_replies = refl

run_refines_example : run script (some wrapped) ≡ Fifo.run 3 script (contents wrapped)
run_refines_example = run_refines script wrapped-IsValid

cb_find_lem_example : cb_find (some packed) 9 ≡ some (pos 1)
unfolding contents
cb_find_lem_example = cb_find_lem 9 packed-IsValid
