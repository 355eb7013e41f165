-- ===== src/Console/Valid.antt =====
-- The cursor on the screen, colors and characters in their bytes, and the memory beyond the screen,
-- under the operations of console.c.
use unix_kernel.Base.{
  ℕ, ◌*◌, ◌≤◌, ◌<◌, ◌≡◌, ◌&&◌, arith, ℤ, pos, negsuc, List, ltb, Bool-cases, Option-cases, inl, inr,
}
use unix_kernel.Console.{
  Video, Console, store, write_cell, draw_char, char_of_int, set_cursor, move_cursor, send_cursor,
  set_term_color, hide_cursor, show_cursor, clear_console, putbytes, color_byte, cell_index,
}
use unix_kernel.Console.Closed.{putbytes-closed, clear_console-closed}
use unix_kernel.Console.Cells.{cell_index-lt, color_byte-lt}

-- The console is well formed, and beyond the screen the memory is `before`.
pub record IsSafe (v : Video) (before : ℕ → ℕ) (c : Console) : Type 0 where
  pub row_in : c.cursor_row < v.height
  pub col_in : c.cursor_col < v.width
  pub color_in : c.term_color < 256
  pub bytes : (a : ℕ) → c.mem a < 256
  pub beyond : (a : ℕ) → 2 * (v.width * v.height) ≤ a → c.mem a ≡ before a

pub char_of_int-lt : (z : ℤ) → char_of_int z < 256
char_of_int-lt (pos n) = omega arith
char_of_int-lt (negsuc n) = omega arith

module _ (v : Video) (before : ℕ → ℕ) where
  open v use {width, height, width_pos, height_pos, default_color_byte}

  write_cell-IsSafe :
      (c : Console) (n ch color : ℕ)
      → n < width * height
      → ch < 256
      → color < 256
      → IsSafe v before c
      → IsSafe v before (write_cell v c n ch color)
  unfolding write_cell store
  write_cell-IsSafe c n ch color lt h k s = record {
    row_in = s.row_in;
    col_in = s.col_in;
    color_in = s.color_in;
    bytes = λ a. let old = s.bytes a in ground arith;
    beyond = λ a le. let old = s.beyond a le in ground arith;
  }

  pub draw_char-IsSafe :
      (c : Console) (row col ch color : ℤ)
      → IsSafe v before c
      → IsSafe v before (draw_char v c row col ch color)
  unfolding draw_char
  draw_char-IsSafe c row col ch color s = elim (Option-cases (cell_index v row col)) [
    | inl e ↦ rw (draw_char, e) s
    | inr (n, e) ↦ elim (Option-cases (color_byte v color)) [
      | inl f ↦ rw (draw_char, e, f) s
      | inr (b, f) ↦
          rw (draw_char, e, f)
            (write_cell-IsSafe c n (char_of_int ch) b (cell_index-lt v row col n e)
              (char_of_int-lt ch) (color_byte-lt v color b f) s)
    ]
  ]

  pub set_cursor-IsSafe :
      (c : Console) (row col : ℤ) → IsSafe v before c → IsSafe v before (set_cursor v c row col).1
  unfolding set_cursor move_cursor send_cursor
  set_cursor-IsSafe c (negsuc row) col s = s
  set_cursor-IsSafe c (pos row) (negsuc col) s = s
  set_cursor-IsSafe c (pos row) (pos col) s = elim (Bool-cases (ltb row height && ltb col width)) [
    | inl e ↦ elim (Bool-cases c.cursor_is_visible) [
      | inl f ↦
          simp (e, f)
            (record {
              row_in = ground arith;
              col_in = ground arith;
              color_in = s.color_in;
              bytes = s.bytes;
              beyond = s.beyond;
            })
      | inr f ↦
          simp (e, f)
            (record {
              row_in = ground arith;
              col_in = ground arith;
              color_in = s.color_in;
              bytes = s.bytes;
              beyond = s.beyond;
            })
    ]
    | inr e ↦ simp e s
  ]

  pub set_term_color-IsSafe :
      (c : Console) (color : ℤ) → IsSafe v before c → IsSafe v before (set_term_color v c color).1
  unfolding set_term_color
  set_term_color-IsSafe c color s = elim (Option-cases (color_byte v color)) [
    | inl e ↦ rw (set_term_color, e) s
    | inr (b, e) ↦
        rw (set_term_color, e)
          (record {
            row_in = s.row_in;
            col_in = s.col_in;
            color_in = color_byte-lt v color b e;
            bytes = s.bytes;
            beyond = s.beyond;
          })
  ]

  pub hide_cursor-IsSafe : (c : Console) → IsSafe v before c → IsSafe v before (hide_cursor v c)
  unfolding hide_cursor send_cursor
  hide_cursor-IsSafe c s = elim (Bool-cases c.cursor_is_visible) [
    | inl e ↦ simp e (record {
      row_in = s.row_in;
      col_in = s.col_in;
      color_in = s.color_in;
      bytes = s.bytes;
      beyond = s.beyond;
    })
    | inr e ↦ simp e s
  ]

  pub show_cursor-IsSafe : (c : Console) → IsSafe v before c → IsSafe v before (show_cursor v c)
  unfolding show_cursor send_cursor
  show_cursor-IsSafe c s = elim (Bool-cases c.cursor_is_visible) [
    | inl e ↦ simp e s
    | inr e ↦ simp e (record {
      row_in = s.row_in;
      col_in = s.col_in;
      color_in = s.color_in;
      bytes = s.bytes;
      beyond = s.beyond;
    })
  ]

  -- Whatever string is printed, the cursor stays on the screen, colors and characters stay in their
  -- bytes, and no memory beyond the screen's 2 * width * height bytes is written.
  pub putbytes-IsSafe :
      (str : List ℕ) (c : Console) → IsSafe v before c → IsSafe v before (putbytes v c str)
  putbytes-IsSafe str c = putbytes-closed v (IsSafe v before) draw_char-IsSafe set_cursor-IsSafe str

  -- The same is kept by set_cursor, set_term_color, hide_cursor, show_cursor and clear_console,
  -- whatever they are called with.
  pub operations-IsSafe :
      (c : Console)
      → IsSafe v before c
      → ((row col : ℤ) → IsSafe v before (set_cursor v c row col).1)
        × ((color : ℤ) → IsSafe v before (set_term_color v c color).1)
        × IsSafe v before (hide_cursor v c)
        × IsSafe v before (show_cursor v c)
        × IsSafe v before (clear_console v c)
  operations-IsSafe c s = (
    λ row col. set_cursor-IsSafe c row col s,
    λ color. set_term_color-IsSafe c color s,
    hide_cursor-IsSafe c s,
    show_cursor-IsSafe c s,
    clear_console-closed v (IsSafe v before) draw_char-IsSafe set_cursor-IsSafe s,
  )
