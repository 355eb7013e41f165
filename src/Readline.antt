-- ===== src/Readline.antt =====
-- kern/syscall/readline.c: fill_cons, which the keyboard's characters go through, and readline's loop
-- that copies a line. They meet in the circular buffer `cons_buf`. `readchar` answers a list of
-- characters, and -1 at its end. `waiting` is whether a readline waits in `cons_cond_queue`; `signals`
-- counts the calls of cond_signal. A `char` is its bit pattern.
pub mod Lines
mod Tests
use unix_kernel.Base.{
  ℕ, zero, suc, ◌+◌, Bool, not, ◌&&◌, Option, List, [], ◌∷◌, ◌==◌, if◌then◌else◌, length,
}
use unix_kernel.CircBuf.{CircBuf, no_char, cb_put, cb_get, cb_delete_end}
use unix_kernel.Console.{Video, Console, putbyte}

abbrev pub backspace : ℕ
backspace = 8

abbrev pub newline : ℕ
newline = 10

pub record Typed : Type 0 where
  pub cons_buf : Option CircBuf
  pub screen : Console
  pub signals : ℕ

module _ (v : Video) (waiting : Bool) where
  pub fill_char : Typed → (c : ℕ) → Typed
  fill_char s c =
      let (dropped, shorter) = cb_delete_end s.cons_buf in
      let echo : Console = (putbyte v s.screen c).1 in
      if c == backspace
      then (if not (dropped == no_char)
          then record s { cons_buf = shorter; screen = echo }
          else record s { cons_buf = shorter })
      else record s {
        cons_buf = (cb_put s.cons_buf c).1;
        screen = echo;
        signals = if (c == newline) && waiting then s.signals + 1 else s.signals;
      }

  pub fill_cons : Typed → List ℕ → Typed
  fill_cons s [] = s
  fill_cons s (c ∷ typed) =
      let rest = fill_cons (fill_char s c) typed in if c == no_char then s else rest

-- The loop that fills `buf`: what it writes there, and what it leaves in the buffer.
pub copy_line : (len : ℕ) → Option CircBuf → List ℕ × Option CircBuf
copy_line zero cb = ([], cb)
copy_line (suc len) cb =
    let (c, left) = cb_get cb in
    let (line, after) = copy_line len left in
    if c == no_char then ([], left) else if c == newline then (c ∷ [], left) else (c ∷ line, after)

-- Does the line end in a newline?
pub ended : List ℕ → Bool
ended [] = Bool.false
ended (c ∷ []) = c == newline
ended (c ∷ d ∷ line) = ended (d ∷ line)

-- Whether readline signals the next one that waits.
pub more_to_read : (len : ℕ) → (line : List ℕ) → Bool
more_to_read len line = (length line == len) && not (ended line)
