-- ===== src/CircBuf.antt =====
-- kern/data_structure/circ_buf.c: the circular character buffer behind the keyboard and the
-- console. A `char` is its bit pattern, a number below 256, so the `char` -1 is 255. A pointer
-- argument that may be NULL is an option; a function that writes through it returns the new value
-- beside its result. What calloc and mutex_init answer are arguments of `cb_init`.
pub mod Slots
pub mod Fifo
pub mod Refine
pub mod Find
mod Tests
use unix_kernel.Base.{
  ℕ, zero, suc, ◌+◌, ◌-◌, ◌%◌, Bool, true, false, not, ◌&&◌, Option, none, some, List, [], ℤ, pos,
  negsuc, minus_one, ◌==◌, if◌then◌else◌, get_or, set, replicate,
}

-- `circ_buf_t`, less its mutex, which these functions do not lock.
pub record CircBuf : Type 0 where
  pub buf : List ℕ
  pub len : ℕ
  pub start : ℕ
  pub end : ℕ
  pub full : Bool

-- The character that the getters return on failure.
abbrev pub no_char : ℕ
no_char = 255

pub empty : CircBuf → Bool
empty cb = not cb.full && (cb.start == cb.end)

-- The fields once `calloc` has succeeded; they stay when `mutex_init` then fails.
abbrev pub fresh : ℕ → CircBuf
fresh len = record { buf = replicate len 0; len = len; start = 0; end = 0; full = false }

-- `calloc` stores NULL in `buf` when it fails.
pub cb_init : Option CircBuf → ℤ → (calloc_ok mutex_ok : Bool) → ℤ × Option CircBuf
cb_init none len calloc_ok mutex_ok = (minus_one, none)
cb_init (some cb) (negsuc n) calloc_ok mutex_ok = (minus_one, some cb)
cb_init (some cb) (pos len) calloc_ok mutex_ok =
    if len == 0
    then (minus_one, some cb)
    else if not calloc_ok
    then (minus_one, some (record cb { buf = [] }))
    else if not mutex_ok
    then (minus_one, some (fresh len))
    else (pos 0, some (fresh len))

-- The buffer once `c` is written at `end`.
store : CircBuf → ℕ → CircBuf
store cb c =
    let next = (cb.end + 1) % cb.len in
    record cb {
      buf = set cb.buf cb.end c;
      end = next;
      full = if next == cb.start then true else cb.full;
    }

pub cb_put : Option CircBuf → ℕ → ℤ × Option CircBuf
cb_put none c = (minus_one, none)
cb_put (some cb) c = if cb.full then (minus_one, some cb) else (pos 0, some (store cb c))

-- The buffer once the character at `start` is taken.
pub advance : CircBuf → CircBuf
advance cb = record cb { start = (cb.start + 1) % cb.len; full = false }

pub cb_get : Option CircBuf → ℕ × Option CircBuf
cb_get none = (no_char, none)
cb_get (some cb) =
    if empty cb then (no_char, some cb) else (get_or cb.buf cb.start 0, some (advance cb))

-- The buffer once the newest character is dropped. `cb->end - 1 + cb->len` is computed on `int`,
-- so it does not stop at 0.
retreat : CircBuf → CircBuf
retreat cb = record cb { end = (cb.end + cb.len - 1) % cb.len; full = false }

pub cb_delete_end : Option CircBuf → ℕ × Option CircBuf
cb_delete_end none = (no_char, none)
cb_delete_end (some cb) =
    if empty cb then (no_char, some cb) else (get_or cb.buf cb.end 0, some (retreat cb))

-- The `do … while (idx != cb->end)` loop, on fuel.
find_from : ℕ → CircBuf → ℕ → ℕ → Option ℤ
find_from zero cb c idx = none
find_from (suc fuel) cb c idx =
    let next = (idx + 1) % cb.len in
    let rest = find_from fuel cb c next in
    if get_or cb.buf idx 0 == c then some (pos 1) else if next == cb.end then some (pos 0) else rest

-- `cb->len` rounds are enough: the index goes round the buffer once.
pub cb_find : Option CircBuf → ℕ → Option ℤ
unfolding find_from
cb_find none c = some minus_one
cb_find (some cb) c = if empty cb then some (pos 0) else find_from cb.len cb c cb.start
