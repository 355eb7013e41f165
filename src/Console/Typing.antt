-- ===== src/Console/Typing.antt =====
-- What putbyte of console.c does with a character and then a backspace.
use unix_kernel.Base.{
  ℕ, ◌+◌, ◌-◌, ◌*◌, ◌<◌, ◌≡◌, refl, sym, ap, ap₂, ◌∙◌, subst, arith, pos, ltb_of_lt, ==_of_ne,
  Bool-cases, inl, inr, ◌≢◌,
}
use unix_kernel.Console.{
  Video, Console, write_cell, int_of_char, char_of_int, set_cursor, move_cursor, send_cursor,
  draw_here, backspace, type_char, putbyte, space,
}
use unix_kernel.Console.Cells.{draw_char-pos, write_cell-char, write_cell-color, write_cell-other}
use unix_kernel.Console.Blank.{cell}
use unix_kernel.Console.Valid.{IsSafe}

module _ (v : Video) where
  open v use {width, height}

  set_cursor-pos :
      (c : Console) (row col : ℕ)
      → row < height
      → col < width
      → (set_cursor v c (pos row) (pos col)).1 ≡ move_cursor v c row col
  unfolding set_cursor
  set_cursor-pos c row col r k = rw (ltb_of_lt row height r, ltb_of_lt col width k) refl

  move_cursor-fields :
      (c : Console) (row col : ℕ)
      → ((move_cursor v c row col).mem ≡ c.mem)
        × ((move_cursor v c row col).cursor_row ≡ row)
        × ((move_cursor v c row col).cursor_col ≡ col)
        × ((move_cursor v c row col).term_color ≡ c.term_color)
  unfolding move_cursor send_cursor
  move_cursor-fields c row col = elim (Bool-cases c.cursor_is_visible) [
    | inl e ↦ simp e (refl, refl, refl, refl)
    | inr e ↦ simp e (refl, refl, refl, refl)
  ]

  -- `c'` is `c` with another cell at its cursor, and the cursor at `col`.
  pub record IsDrawn (c : Console) (n ch col : ℕ) (c' : Console) : Type 0 where
    pub row_is : c'.cursor_row ≡ c.cursor_row
    pub col_is : c'.cursor_col ≡ col
    pub color_is : c'.term_color ≡ c.term_color
    pub cell_is : cell c' n ≡ (ch, c.term_color)
    pub others : (a : ℕ) → a ≢ 2 * n → a ≢ 2 * n + 1 → c'.mem a ≡ c.mem a

  draw_here-IsDrawn :
      (c : Console) (ch : ℕ)
      → c.cursor_row < height
      → c.cursor_col < width
      → c.term_color < 256
      → IsDrawn c
          (c.cursor_row * width + c.cursor_col)
          (char_of_int (int_of_char ch))
          c.cursor_col
          (draw_here v c ch)
  unfolding draw_here
  draw_here-IsDrawn c ch r k b =
      let n = c.cursor_row * width + c.cursor_col in
      let x = char_of_int (int_of_char ch) in
      subst (IsDrawn c n x c.cursor_col)
        (sym (draw_char-pos v c c.cursor_row c.cursor_col (int_of_char ch) c.term_color r k b))
        (record {
          row_is = unfold write_cell in refl;
          col_is = unfold write_cell in refl;
          color_is = unfold write_cell in refl;
          cell_is =
              ap₂ (λ a e. (a, e)) (write_cell-char v c n x c.term_color)
                (write_cell-color v c n x c.term_color);
          others = write_cell-other v c n x c.term_color;
        })

  moved-IsDrawn :
      (c : Console) (n ch col to : ℕ) (c' : Console)
      → c.cursor_row < height
      → to < width
      → IsDrawn c n ch col c'
      → IsDrawn c n ch to (set_cursor v c' (pos c'.cursor_row) (pos to)).1
  moved-IsDrawn c n ch col to c' r k d =
      let (m, row, at, color) = move_cursor-fields c' c'.cursor_row to in
      let r' : c'.cursor_row < height = rw d.row_is r in
      subst (IsDrawn c n ch to) (sym (set_cursor-pos c' c'.cursor_row to r' k)) (record {
        row_is = row ∙ d.row_is;
        col_is = at;
        color_is = color ∙ d.color_is;
        cell_is = ap (λ f. (f (2 * n), f (2 * n + 1))) m ∙ d.cell_is;
        others = λ a p q. ap (λ f. f a) m ∙ d.others a p q;
      })

  redrawn-IsDrawn :
      (c : Console) (ch new : ℕ) (c' : Console)
      → c.cursor_row < height
      → c.cursor_col < width
      → c.term_color < 256
      → IsDrawn c (c.cursor_row * width + c.cursor_col) ch c.cursor_col c'
      → IsDrawn c
          (c.cursor_row * width + c.cursor_col)
          (char_of_int (int_of_char new))
          c.cursor_col
          (draw_here v c' new)
  redrawn-IsDrawn c ch new c' r k b d =
      let n : c'.cursor_row * width + c'.cursor_col ≡ c.cursor_row * width + c.cursor_col =
        ap₂ (λ i j. i * width + j) d.row_is d.col_is in
      let again = draw_here-IsDrawn c' new (rw d.row_is r) (rw d.col_is k) (rw d.color_is b) in
      record {
        row_is = again.row_is ∙ d.row_is;
        col_is = again.col_is ∙ d.col_is;
        color_is = again.color_is ∙ d.color_is;
        cell_is =
            subst
              (λ m. cell (draw_here v c' new) m ≡ (char_of_int (int_of_char new), c'.term_color)) n
              again.cell_is
            ∙ ap (λ e. (char_of_int (int_of_char new), e)) d.color_is;
        others = λ a p q.
            again.others a (λ e. p (e ∙ ap (λ m. 2 * m) n)) (λ e. q (e ∙ ap (λ m. 2 * m + 1) n))
            ∙ d.others a p q;
      }

  type_char-IsDrawn :
      (c : Console) (ch : ℕ)
      → c.cursor_row < height
      → c.cursor_col + 1 < width
      → c.term_color < 256
      → IsDrawn c
          (c.cursor_row * width + c.cursor_col)
          (char_of_int (int_of_char ch))
          (c.cursor_col + 1)
          (type_char v c ch)
  unfolding type_char
  type_char-IsDrawn c ch r k b =
      let n = c.cursor_row * width + c.cursor_col in
      let x = char_of_int (int_of_char ch) in
      let d = draw_here-IsDrawn c ch r (omega arith) b in
      let here = moved-IsDrawn c n x c.cursor_col (c.cursor_col + 1) (draw_here v c ch) r k d in
      rw (==_of_ne (c.cursor_col + 1) width (omega arith)) (
        subst
          (λ row.
            IsDrawn c n x (c.cursor_col + 1)
              (set_cursor v (draw_here v c ch) (pos row) (pos (c.cursor_col + 1))).1)
          d.row_is here)

  backspace-IsDrawn :
      (c : Console) (ch : ℕ) (c' : Console)
      → c.cursor_row < height
      → c.cursor_col < width
      → c.term_color < 256
      → IsDrawn c (c.cursor_row * width + c.cursor_col) ch (c.cursor_col + 1) c'
      → IsDrawn c (c.cursor_row * width + c.cursor_col) space c.cursor_col (backspace v c')
  unfolding backspace
  backspace-IsDrawn c ch c' r k b d =
      let n = c.cursor_row * width + c.cursor_col in
      let is = d.col_is in
      let back : c'.cursor_col - 1 ≡ c.cursor_col = omega arith in
      rw (==_of_ne c'.cursor_col 0 (omega arith), back)
        (redrawn-IsDrawn c ch space _ r k b
          (moved-IsDrawn c n ch (c.cursor_col + 1) c.cursor_col c' r k d))

  -- A character other than newline, return and backspace, typed before the last column and taken
  -- back: the cursor is where it was, its cell is a space in the terminal's color, and all other
  -- memory is as it was.
  pub putbyte-backspace :
      (before : ℕ → ℕ) (c : Console) (ch : ℕ)
      → IsSafe v before c
      → c.cursor_col + 1 < width
      → ch ≢ b'\n'
      → ch ≢ b'\r'
      → ch ≢ 8
      → IsDrawn c
          (c.cursor_row * width + c.cursor_col)
          space
          c.cursor_col
          (putbyte v (putbyte v c ch).1 8).1
  unfolding putbyte
  putbyte-backspace before c ch s k nl cr bs =
      rw (==_of_ne ch b'\n' nl, ==_of_ne ch b'\r' cr, ==_of_ne ch 8 bs)
        (backspace-IsDrawn c _ (type_char v c ch) s.row_in s.col_in s.color_in
          (type_char-IsDrawn c ch s.row_in k s.color_in))
