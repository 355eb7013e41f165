-- ===== src/Console.antt =====
-- kern/console.c: the text console over video memory. The screen's size, the default color and
-- the ports come from x86/video_defines.h, which the repository does not hold: they are the
-- parameter `Video`, with the facts that the code relies on. Characters are bytes. `outb_mp`, which
-- guards the port writes, is not modelled. Each `for` loop recurs on the rounds that are left.
pub mod Cells
pub mod Blank
pub mod Scroll
pub mod Closed
pub mod Valid
pub mod Shown
pub mod Typing
pub mod LastChar
mod Tests
use unix_kernel.Base.{
  ℕ, zero, suc, ◌+◌, ◌-◌, ◌*◌, ◌/◌, ◌%◌, ◌^◌, ◌<◌, Bool, true, false, ◌&&◌, Option, none, some,
  List, [], ◌∷◌, ℤ, pos, negsuc, minus_one, ltb, ◌==◌, if◌then◌else◌,
}

pub record Video : Type 0 where
  pub width : ℕ
  pub height : ℕ
  -- `(!BLINK) | FGND_WHITE | BGND_BLACK`
  pub default_color : ℕ
  pub crtc_idx_reg : ℕ
  pub crtc_data_reg : ℕ
  pub crtc_cursor_msb_idx : ℕ
  pub crtc_cursor_lsb_idx : ℕ
  pub width_pos : 0 < width
  pub height_pos : 0 < height
  pub default_color_byte : default_color < 256
  -- Also the location that hides the cursor fits the two cursor registers.
  pub small : width * height + 0xbeef < 2 ^ 16

-- The global state of the file. `mem` is the memory from CONSOLE_MEM_BASE on, byte by byte, and
-- `ports` what outb has sent, newest first, as pairs of port and byte.
pub record Console : Type 0 where
  pub mem : ℕ → ℕ
  pub cursor_row : ℕ
  pub cursor_col : ℕ
  pub cursor_is_visible : Bool
  pub term_color : ℕ
  pub ports : List (ℕ × ℕ)

-- A signed `char` as an `int`, and back.
abbrev pub int_of_char : ℕ → ℤ
int_of_char b = if ltb b 128 then pos b else negsuc (255 - b)

abbrev pub char_of_int : ℤ → ℕ
char_of_int (pos n) = n % 256
char_of_int (negsuc n) = 255 - n % 256

unfoldable pub store : (ℕ → ℕ) → ℕ → ℕ → ℕ → ℕ
store m a b x = if x == a then b else m x

abbrev pub space : ℕ
space = b' '

module _ (v : Video) where
  open v use {width, height}

  -- The number of the cell at a row and a column that are within bounds.
  pub cell_index : ℤ → ℤ → Option ℕ
  cell_index (pos row) (pos col) =
      if ltb row height && ltb col width then some (row * width + col) else none
  cell_index (pos row) (negsuc col) = none
  cell_index (negsuc row) col = none

  pub color_byte : ℤ → Option ℕ
  color_byte (pos color) = if ltb color 256 then some color else none
  color_byte (negsuc color) = none

  -- The two bytes of a cell are written.
  pub write_cell : Console → ℕ → ℕ → ℕ → Console
  write_cell c i ch color = record c { mem = store (store c.mem (2 * i) ch) (2 * i + 1) color }

  pub draw_char : Console → (row col ch color : ℤ) → Console
  draw_char c row col ch color = elim (cell_index row col) [
    | none ↦ c
    | some i ↦ elim (color_byte color) [ none ↦ c | some b ↦ write_cell c i (char_of_int ch) b ]
  ]

  pub get_char : Console → (row col : ℤ) → ℕ
  get_char c row col = elim (cell_index row col) [ none ↦ 0 | some i ↦ c.mem (2 * i) ]

  pub get_color : Console → (row col : ℤ) → ℕ
  get_color c row col = elim (cell_index row col) [
    | none ↦ v.default_color
    | some i ↦ c.mem (2 * i + 1)
  ]

  pub get_offset_msb : Console → ℕ
  get_offset_msb c = (c.cursor_row * width + c.cursor_col) / 2 ^ 8 % 256

  pub get_offset_lsb : Console → ℕ
  get_offset_lsb c = (c.cursor_row * width + c.cursor_col) % 256

  -- The four writes that put the cursor at the location with these two bytes.
  pub send_cursor : Console → (msb lsb : ℕ) → Console
  send_cursor c msb lsb = record c {
    ports =
        (v.crtc_data_reg, lsb)
        ∷ (v.crtc_idx_reg, v.crtc_cursor_lsb_idx)
        ∷ (v.crtc_data_reg, msb)
        ∷ (v.crtc_idx_reg, v.crtc_cursor_msb_idx)
        ∷ c.ports;
  }

  pub move_cursor : Console → (row col : ℕ) → Console
  move_cursor c row col =
      let moved = record c { cursor_row = row; cursor_col = col } in
      if c.cursor_is_visible
      then send_cursor moved (get_offset_msb moved) (get_offset_lsb moved)
      else moved

  pub set_cursor : Console → (row col : ℤ) → ℤ × Console
  set_cursor c (negsuc row) col = (minus_one, c)
  set_cursor c (pos row) (negsuc col) = (minus_one, c)
  set_cursor c (pos row) (pos col) =
      if ltb row height && ltb col width then (pos 0, move_cursor c row col) else (minus_one, c)

  pub set_term_color : Console → ℤ → ℤ × Console
  set_term_color c color = elim (color_byte color) [
    | none ↦ (minus_one, c)
    | some b ↦ (pos 0, record c { term_color = b })
  ]

  -- CONSOLE_SIZE + RAN_NUM
  abbrev pub hide_offset : ℕ
  hide_offset = width * height + 0xbeef

  pub hide_cursor : Console → Console
  hide_cursor c =
      if c.cursor_is_visible
      then record (send_cursor c (hide_offset / 2 ^ 8 % 256) (hide_offset % 256)) {
        cursor_is_visible = false;
      }
      else c

  pub show_cursor : Console → Console
  show_cursor c =
      if c.cursor_is_visible
      then c
      else record (send_cursor c (get_offset_msb c) (get_offset_lsb c)) { cursor_is_visible = true }

  -- The copy of one cell to the row above it.
  pub scroll_cell : Console → (i j : ℕ) → Console
  scroll_cell c i j =
      draw_char c (pos (i - 1)) (pos j) (int_of_char (get_char c (pos i) (pos j)))
        (int_of_char (get_color c (pos i) (pos j)))

  -- The inner loop, `k` columns from `j` on.
  pub scroll_row : (k i j : ℕ) → Console → Console
  scroll_row zero i j c = c
  scroll_row (suc k) i j c = scroll_row k i (j + 1) (scroll_cell c i j)

  -- The outer loop, `k` rows from `i` on.
  pub scroll_rows : (k i : ℕ) → Console → Console
  scroll_rows zero i c = c
  scroll_rows (suc k) i c = scroll_rows k (i + 1) (scroll_row width i 0 c)

  -- `k` cells of a row from column `j` on become spaces.
  pub blank_row : (k row j color : ℕ) → Console → Console
  blank_row zero row j color c = c
  blank_row (suc k) row j color c =
      blank_row k row (j + 1) color (draw_char c (pos row) (pos j) (pos space) (pos color))

  pub console_scroll_up : Console → Console
  console_scroll_up c = blank_row width (height - 1) 0 c.term_color (scroll_rows (height - 1) 1 c)

  pub blank_rows : (k i color : ℕ) → Console → Console
  blank_rows zero i color c = c
  blank_rows (suc k) i color c = blank_rows k (i + 1) color (blank_row width i 0 color c)

  pub clear_console : Console → Console
  clear_console c = (set_cursor (blank_rows height 0 v.default_color c) (pos 0) (pos 0)).1

  -- The loop from column `k - 1` down.
  pub last_char_below : Console → (row k : ℕ) → ℕ
  last_char_below c row zero = 0
  last_char_below c row (suc k) =
      let rest = last_char_below c row k in
      if get_char c (pos row) (pos k) == space then rest else k

  pub find_last_char : Console → ℕ → ℕ
  find_last_char c row = last_char_below c row width

  -- To the start of the next row; on the last row the screen scrolls up.
  pub new_line : Console → Console
  new_line c =
      if c.cursor_row + 1 == height
      then (set_cursor (console_scroll_up c) (pos (height - 1)) (pos 0)).1
      else (set_cursor c (pos (c.cursor_row + 1)) (pos 0)).1

  -- The character under the cursor is overwritten.
  pub draw_here : Console → ℕ → Console
  draw_here c ch =
      draw_char c (pos c.cursor_row) (pos c.cursor_col) (int_of_char ch) (pos c.term_color)

  pub backspace : Console → Console
  backspace c =
      if c.cursor_col == 0
      then if c.cursor_row == 0
        then c
        else draw_here
            (set_cursor c (pos (c.cursor_row - 1)) (pos (find_last_char c (c.cursor_row - 1)))).1
            space
      else draw_here (set_cursor c (pos c.cursor_row) (pos (c.cursor_col - 1))).1 space

  pub type_char : Console → ℕ → Console
  type_char c ch =
      let drawn = draw_here c ch in
      if c.cursor_col + 1 == width
      then new_line drawn
      else (set_cursor drawn (pos c.cursor_row) (pos (c.cursor_col + 1))).1

  pub putbyte : Console → ℕ → ℤ × Console
  putbyte c ch = (int_of_char ch, after)
    where
      after : Console
      after =
          if ch == b'\n'
          then new_line c
          else if ch == b'\r'
          then (set_cursor c (pos c.cursor_row) (pos 0)).1
          else if ch == 8
          then backspace c
          else type_char c ch

  -- The string is the `len` bytes at `s`; with NULL or a length that is not positive nothing is
  -- done.
  pub putbytes : Console → List ℕ → Console
  putbytes c [] = c
  putbytes c (ch ∷ s) = putbytes (putbyte c ch).1 s
