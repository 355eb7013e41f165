-- ===== src/Console/Tests.antt =====
-- The console of console.c on a screen of two rows of three cells.
use unix_kernel.Base.{ℕ, ◌+◌, ◌-◌, ◌*◌, ◌≤◌, ◌<◌, ◌≡◌, refl, ◌∙◌, true, List, [], ◌∷◌, arith, ℤ}
use unix_kernel.Console.{
  Video, Console, store, space, putbyte, putbytes, set_cursor, set_term_color, hide_cursor,
  show_cursor, clear_console, console_scroll_up,
}
use unix_kernel.Console.Blank.{cell}
use unix_kernel.Console.Scroll.{from_below, console_scroll_up_lem}
use unix_kernel.Console.Valid.{IsSafe, putbytes-IsSafe}
use unix_kernel.Console.Shown.{IsShown, operations-IsShown}
use unix_kernel.Console.Typing.{IsDrawn, putbyte-backspace}

abbrev tiny : Video
tiny = record {
  width = 3;
  height = 2;
  default_color = 7;
  crtc_idx_reg = 980;
  crtc_data_reg = 981;
  crtc_cursor_msb_idx = 14;
  crtc_cursor_lsb_idx = 15;
  width_pos = omega arith;
  height_pos = omega arith;
  default_color_byte = omega arith;
  small = omega arith;
}

-- `X` in the second row, with a color of 128, and memory of zeros elsewhere.
abbrev screen : ℕ → ℕ
screen = store (store (λ _. 0) 6 b'X') 7 128

abbrev console : Console
console = record {
  mem = screen;
  cursor_row = 1;
  cursor_col = 1;
  cursor_is_visible = true;
  term_color = 7;
  ports = (981, 4) ∷ (980, 15) ∷ (981, 0) ∷ (980, 14) ∷ [];
}

screen-bytes : (a : ℕ) → screen a < 256
unfolding store
screen-bytes a = ground arith

console-IsSafe : IsSafe tiny screen console
console-IsSafe = record {
  row_in = omega arith;
  col_in = omega arith;
  color_in = omega arith;
  bytes = screen-bytes;
  beyond = λ a le. refl;
}

console-IsShown : IsShown tiny console
console-IsShown = record {
  row_in = omega arith;
  col_in = omega arith;
  sent = record {
    msb = 0;
    lsb = 4;
    earlier = [];
    last_four = refl;
    is_byte = omega arith;
    is_location = refl;
  };
}

putbytes-IsSafe_example : IsSafe tiny screen (putbytes tiny console (b'a' ∷ b'\n' ∷ 8 ∷ []))
putbytes-IsSafe_example = putbytes-IsSafe tiny screen (b'a' ∷ b'\n' ∷ 8 ∷ []) console console-IsSafe

operations-IsShown_example :
    ((str : List ℕ) → IsShown tiny (putbytes tiny console str))
    × ((row col : ℤ) → IsShown tiny (set_cursor tiny console row col).1)
    × ((color : ℤ) → IsShown tiny (set_term_color tiny console color).1)
    × IsShown tiny (hide_cursor tiny console)
    × IsShown tiny (show_cursor tiny console)
    × IsShown tiny (clear_console tiny console)
operations-IsShown_example = operations-IsShown tiny console console-IsShown

console_scroll_up_lem_example :
    (console_scroll_up tiny console ≡ record console { mem = (console_scroll_up tiny console).mem })
    × ((n : ℕ) → n < (2 - 1) * 3 → cell (console_scroll_up tiny console) n ≡ from_below 3 console n)
    × ((n : ℕ) → (2 - 1) * 3 ≤ n → n < 2 * 3 → cell (console_scroll_up tiny console) n ≡ (space, 7))
    × ((a : ℕ) → 2 * (2 * 3) ≤ a → (console_scroll_up tiny console).mem a ≡ screen a)
console_scroll_up_lem_example = console_scroll_up_lem tiny console screen-bytes (omega arith)

-- The `X` is not scrolled, since its color is 128.
bright_cell_stays : cell (console_scroll_up tiny console) 0 ≡ (0, 0)
unfolding store
bright_cell_stays =
    (console_scroll_up_lem tiny console screen-bytes (omega arith)).1 0 (omega arith) ∙ refl

putbyte-backspace_example :
    IsDrawn tiny console (1 * 3 + 1) space 1 (putbyte tiny (putbyte tiny console b'a').1 8).1
putbyte-backspace_example =
    putbyte-backspace tiny screen console b'a' console-IsSafe (omega arith) (omega arith)
      (omega arith) (omega arith)
