-- ===== src/Console/Closed.antt =====
-- Printing in console.c as drawing of cells and moves of the cursor, for a predicate that those two
-- keep.
use unix_kernel.Base.{ℕ, zero, suc, ◌+◌, ◌-◌, Bool-cases, inl, inr, List, [], ◌∷◌, ◌==◌, ℤ}
use unix_kernel.Console.{
  Video, Console, draw_char, set_cursor, scroll_cell, scroll_row, scroll_rows, blank_row,
  console_scroll_up, blank_rows, clear_console, new_line, draw_here, backspace, type_char, putbyte,
  putbytes,
}

module _ (v : Video) (P : Console → Type 0)
    (draw : (c : Console) (row col ch color : ℤ) → P c → P (draw_char v c row col ch color))
    (move : (c : Console) (row col : ℤ) → P c → P (set_cursor v c row col).1) where
  open v use {width, height}

  scroll_row-closed : (k i j : ℕ) {c : Console} → P c → P (scroll_row v k i j c)
  unfolding scroll_row scroll_cell
  scroll_row-closed zero i j s = s
  scroll_row-closed (suc k) i j s = scroll_row-closed k i (j + 1) (draw _ _ _ _ _ s)

  scroll_rows-closed : (k i : ℕ) {c : Console} → P c → P (scroll_rows v k i c)
  unfolding scroll_rows
  scroll_rows-closed zero i s = s
  scroll_rows-closed (suc k) i s = scroll_rows-closed k (i + 1) (scroll_row-closed _ _ _ s)

  blank_row-closed : (k row j color : ℕ) {c : Console} → P c → P (blank_row v k row j color c)
  unfolding blank_row
  blank_row-closed zero row j color s = s
  blank_row-closed (suc k) row j color s = blank_row-closed k row (j + 1) color (draw _ _ _ _ _ s)

  blank_rows-closed : (k i color : ℕ) {c : Console} → P c → P (blank_rows v k i color c)
  unfolding blank_rows
  blank_rows-closed zero i color s = s
  blank_rows-closed (suc k) i color s =
      blank_rows-closed k (i + 1) color (blank_row-closed _ _ _ _ s)

  pub clear_console-closed : {c : Console} → P c → P (clear_console v c)
  unfolding clear_console
  clear_console-closed s = move _ _ _ (blank_rows-closed _ _ _ s)

  new_line-closed : {c : Console} → P c → P (new_line v c)
  unfolding new_line console_scroll_up
  new_line-closed {c} s = elim (Bool-cases (c.cursor_row + 1 == height)) [
    | inl e ↦ simp e (move _ _ _ (blank_row-closed _ _ _ _ (scroll_rows-closed (height - 1) 1 s)))
    | inr e ↦ simp e (move _ _ _ s)
  ]

  draw_here-closed : (ch : ℕ) {c : Console} → P c → P (draw_here v c ch)
  unfolding draw_here
  draw_here-closed ch s = draw _ _ _ _ _ s

  backspace-closed : {c : Console} → P c → P (backspace v c)
  unfolding backspace
  backspace-closed {c} s = elim (Bool-cases (c.cursor_col == 0)) [
    | inl e ↦ elim (Bool-cases (c.cursor_row == 0)) [
      | inl f ↦ simp (e, f) s
      | inr f ↦ simp (e, f) (draw_here-closed _ (move _ _ _ s))
    ]
    | inr e ↦ simp e (draw_here-closed _ (move _ _ _ s))
  ]

  type_char-closed : (ch : ℕ) {c : Console} → P c → P (type_char v c ch)
  unfolding type_char
  type_char-closed ch {c} s = elim (Bool-cases (c.cursor_col + 1 == width)) [
    | inl e ↦ simp e (new_line-closed (draw_here-closed ch s))
    | inr e ↦ simp e (move _ _ _ (draw_here-closed ch s))
  ]

  pub putbyte-closed : (ch : ℕ) {c : Console} → P c → P (putbyte v c ch).1
  unfolding putbyte
  putbyte-closed ch {c} s = elim (Bool-cases (ch == b'\n')) [
    | inl e ↦ simp e (new_line-closed s)
    | inr e ↦ elim (Bool-cases (ch == b'\r')) [
      | inl f ↦ simp (e, f) (move _ _ _ s)
      | inr f ↦ elim (Bool-cases (ch == 8)) [
        | inl g ↦ simp (e, f, g) (backspace-closed s)
        | inr g ↦ simp (e, f, g) (type_char-closed ch s)
      ]
    ]
  ]

  pub putbytes-closed : (str : List ℕ) {c : Console} → P c → P (putbytes v c str)
  unfolding putbytes
  putbytes-closed [] s = s
  putbytes-closed (ch ∷ str) s = putbytes-closed str (putbyte-closed ch s)
