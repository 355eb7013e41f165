-- ===== src/Console/Cells.antt =====
-- One cell of console.c's screen: its number, and what draw_char and get_char do at it.
use unix_kernel.Base.{
  ℕ, suc, ◌+◌, ◌*◌, ◌≤◌, ◌<◌, ◌≡◌, refl, some, arith, ℤ, pos, negsuc, ltb, ltb_of_lt, Bool-cases,
  Option-cases, inl, inr, ◌≢◌, lt_of_ltb,
}
use unix_kernel.Console.{
  Video, Console, store, cell_index, color_byte, write_cell, draw_char, get_char, get_color,
  char_of_int, int_of_char,
}

row_below : (row height width : ℕ) → row < height → row * width + width ≤ width * height
row_below row height width lt = grind arith

pub cell-lt :
    (row col width height : ℕ) → row < height → col < width → row * width + col < width * height
cell-lt row col width height r c = let below = row_below row height width r in omega arith

-- A row and a column are found again from the number of the cell.
pub row_eq :
    (row i col j width : ℕ)
    → col < width
    → j < width
    → row * width + col ≡ i * width + j
    → row < suc i
row_eq row i col j width a b e = grind arith

module _ (v : Video) where
  open v use {width, height}

  pub cell_index-pos :
      (row col : ℕ)
      → row < height
      → col < width
      → cell_index v (pos row) (pos col) ≡ some (row * width + col)
  unfolding cell_index
  cell_index-pos row col r c = rw (ltb_of_lt row height r, ltb_of_lt col width c) refl

  pub cell_index-lt : (row col : ℤ) (n : ℕ) → cell_index v row col ≡ some n → n < width * height
  unfolding cell_index
  cell_index-lt (pos row) (pos col) n e = elim (Bool-cases (ltb row height)) [
    | inl r ↦ elim (Bool-cases (ltb col width)) [
      | inl c ↦
          let lt = cell-lt row col width height (lt_of_ltb row height r) (lt_of_ltb col width c) in
          ground arith
      | inr c ↦ ground arith
    ]
    | inr r ↦ ground arith
  ]
  cell_index-lt (pos row) (negsuc col) n e = ground arith
  cell_index-lt (negsuc row) col n e = ground arith

  pub color_byte-lt : (color : ℤ) (b : ℕ) → color_byte v color ≡ some b → b < 256
  unfolding color_byte
  color_byte-lt (pos color) b e = ground arith
  color_byte-lt (negsuc color) b e = ground arith

  pub color_byte-pos : (b : ℕ) → b < 256 → color_byte v (pos b) ≡ some b
  unfolding color_byte
  color_byte-pos b lt = rw (ltb_of_lt b 256 lt) refl

  pub draw_char-pos :
      (c : Console) (row col : ℕ) (ch : ℤ) (color : ℕ)
      → row < height
      → col < width
      → color < 256
      → draw_char v c (pos row) (pos col) ch (pos color)
        ≡ write_cell v c (row * width + col) (char_of_int ch) color
  unfolding draw_char
  draw_char-pos c row col ch color r k b =
      rw (draw_char, cell_index-pos row col r k, color_byte-pos color b) refl

  -- A negative color is not drawn.
  pub draw_char-negsuc :
      (c : Console) (row col ch : ℤ) (color : ℕ) → draw_char v c row col ch (negsuc color) ≡ c
  unfolding draw_char color_byte
  draw_char-negsuc c row col ch color = elim (Option-cases (cell_index v row col)) [
    | inl e ↦ rw (draw_char, e) refl
    | inr (i, e) ↦ rw (draw_char, e) refl
  ]

  pub get_char-pos :
      (c : Console) (row col : ℕ)
      → row < height
      → col < width
      → get_char v c (pos row) (pos col) ≡ c.mem (2 * (row * width + col))
  unfolding get_char
  get_char-pos c row col r k = rw (get_char, cell_index-pos row col r k) refl

  pub get_color-pos :
      (c : Console) (row col : ℕ)
      → row < height
      → col < width
      → get_color v c (pos row) (pos col) ≡ c.mem (2 * (row * width + col) + 1)
  unfolding get_color
  get_color-pos c row col r k = rw (get_color, cell_index-pos row col r k) refl

  pub write_cell-char :
      (c : Console) (n ch color : ℕ) → (write_cell v c n ch color).mem (2 * n) ≡ ch
  unfolding write_cell store
  write_cell-char c n ch color = ground arith

  pub write_cell-color :
      (c : Console) (n ch color : ℕ) → (write_cell v c n ch color).mem (2 * n + 1) ≡ color
  unfolding write_cell store
  write_cell-color c n ch color = ground arith

  pub write_cell-other :
      (c : Console) (n ch color a : ℕ)
      → a ≢ 2 * n
      → a ≢ 2 * n + 1
      → (write_cell v c n ch color).mem a ≡ c.mem a
  unfolding write_cell store
  write_cell-other c n ch color a p q = ground arith

pub char_of_int_of_char : (b : ℕ) → b < 256 → char_of_int (int_of_char b) ≡ b
char_of_int_of_char b lt = ground arith
