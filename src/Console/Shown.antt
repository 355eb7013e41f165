-- ===== src/Console/Shown.antt =====
-- Where the hardware cursor stands. The file is to keep it at the cursor's cell while the cursor is
-- visible, and beyond the screen while it is hidden.
use unix_kernel.Base.{
  ℕ, ◌+◌, ◌*◌, ◌/◌, ◌%◌, ◌^◌, ◌<◌, ◌≡◌, refl, subst, true, false, ◌&&◌, arith, ℤ, pos, negsuc, List,
  ◌∷◌, ltb, Bool-cases, Option-cases, inl, inr, if◌then◌else◌,
}
use unix_kernel.Console.{
  Video, Console, write_cell, draw_char, set_cursor, move_cursor, send_cursor, set_term_color,
  hide_cursor, show_cursor, clear_console, putbytes, color_byte, cell_index, hide_offset,
  get_offset_msb, get_offset_lsb,
}
use unix_kernel.Console.Closed.{putbytes-closed, clear_console-closed}
use unix_kernel.Console.Cells.{cell-lt}

-- The last four writes to the ports send the location `n`, in two bytes.
pub record IsSent (v : Video) (ports : List (ℕ × ℕ)) (n : ℕ) : Type 0 where
  pub msb : ℕ
  pub lsb : ℕ
  pub earlier : List (ℕ × ℕ)
  pub last_four :
      ports
      ≡ (v.crtc_data_reg, lsb)
        ∷ (v.crtc_idx_reg, v.crtc_cursor_lsb_idx)
        ∷ (v.crtc_data_reg, msb)
        ∷ (v.crtc_idx_reg, v.crtc_cursor_msb_idx)
        ∷ earlier
  pub is_byte : lsb < 256
  pub is_location : msb * 256 + lsb ≡ n

-- The location that the hardware cursor is to have.
abbrev pub location : Video → Console → ℕ
location v c = if c.cursor_is_visible then c.cursor_row * v.width + c.cursor_col else hide_offset v

pub record IsShown (v : Video) (c : Console) : Type 0 where
  pub row_in : c.cursor_row < v.height
  pub col_in : c.cursor_col < v.width
  pub sent : IsSent v c.ports (location v c)

two_bytes : (n : ℕ) → n < 2 ^ 16 → n / 2 ^ 8 % 256 * 256 + n % 256 ≡ n
two_bytes n lt = omega arith

module _ (v : Video) where
  open v use {width, height}

  send_cursor-IsSent :
      (c : Console) (n : ℕ)
      → n < 2 ^ 16
      → IsSent v (send_cursor v c (n / 2 ^ 8 % 256) (n % 256)).ports n
  unfolding send_cursor
  send_cursor-IsSent c n lt = record {
    msb = n / 2 ^ 8 % 256;
    lsb = n % 256;
    earlier = c.ports;
    last_four = refl;
    is_byte = omega arith;
    is_location = two_bytes n lt;
  }

  draw_char-IsShown :
      (c : Console) (row col ch color : ℤ)
      → IsShown v c
      → IsShown v (draw_char v c row col ch color)
  unfolding draw_char
  draw_char-IsShown c row col ch color s = elim (Option-cases (cell_index v row col)) [
    | inl e ↦ rw (draw_char, e) s
    | inr (n, e) ↦ elim (Option-cases (color_byte v color)) [
      | inl f ↦ rw (draw_char, e, f) s
      | inr (b, f) ↦
          rw (draw_char, e, f)
            (unfold write_cell in record { row_in = s.row_in; col_in = s.col_in; sent = s.sent })
    ]
  ]

  location-small : (row col : ℕ) → row < height → col < width → row * width + col < 2 ^ 16
  location-small row col r k =
      let lt = cell-lt row col width height r k in let small = v.small in omega arith

  at_shown :
      (c : Console)
      → c.cursor_is_visible ≡ true
      → IsShown v c
      → IsSent v c.ports (c.cursor_row * width + c.cursor_col)
  at_shown c e s =
      subst
        (λ b. IsSent v c.ports (if b then c.cursor_row * width + c.cursor_col else hide_offset v)) e
        s.sent

  at_hidden :
      (c : Console) → c.cursor_is_visible ≡ false → IsShown v c → IsSent v c.ports (hide_offset v)
  at_hidden c e s =
      subst
        (λ b. IsSent v c.ports (if b then c.cursor_row * width + c.cursor_col else hide_offset v)) e
        s.sent

  move_cursor-IsShown :
      (c : Console) (row col : ℕ)
      → row < height
      → col < width
      → IsShown v c
      → IsShown v (move_cursor v c row col)
  unfolding move_cursor get_offset_msb get_offset_lsb
  move_cursor-IsShown c row col r k s = elim (Bool-cases c.cursor_is_visible) [
    | inl e ↦ simp e (record {
      row_in = unfold send_cursor in r;
      col_in = unfold send_cursor in k;
      sent =
          unfold send_cursor in
          send_cursor-IsSent
            (record c { cursor_row = row; cursor_col = col; cursor_is_visible = true })
            (row * width + col) (location-small row col r k);
    })
    | inr e ↦ simp e (record { row_in = r; col_in = k; sent = at_hidden c e s })
  ]

  set_cursor-IsShown :
      (c : Console) (row col : ℤ) → IsShown v c → IsShown v (set_cursor v c row col).1
  unfolding set_cursor
  set_cursor-IsShown c (negsuc row) col s = s
  set_cursor-IsShown c (pos row) (negsuc col) s = s
  set_cursor-IsShown c (pos row) (pos col) s = elim (Bool-cases (ltb row height && ltb col width)) [
    | inl e ↦ rw e (move_cursor-IsShown c row col (ground arith) (ground arith) s)
    | inr e ↦ rw e s
  ]

  hide_cursor-IsShown : (c : Console) → IsShown v c → IsShown v (hide_cursor v c)
  unfolding hide_cursor
  hide_cursor-IsShown c s = elim (Bool-cases c.cursor_is_visible) [
    | inl e ↦ simp e (record {
      row_in = unfold send_cursor in s.row_in;
      col_in = unfold send_cursor in s.col_in;
      sent = send_cursor-IsSent _ (hide_offset v) v.small;
    })
    | inr e ↦ simp e s
  ]

  show_cursor-IsShown : (c : Console) → IsShown v c → IsShown v (show_cursor v c)
  unfolding show_cursor get_offset_msb get_offset_lsb
  show_cursor-IsShown c s = elim (Bool-cases c.cursor_is_visible) [
    | inl e ↦ simp e s
    | inr e ↦ simp e (record {
      row_in = unfold send_cursor in s.row_in;
      col_in = unfold send_cursor in s.col_in;
      sent =
          unfold send_cursor in
          send_cursor-IsSent c (c.cursor_row * width + c.cursor_col)
            (location-small c.cursor_row c.cursor_col s.row_in s.col_in);
    })
  ]

  set_term_color-IsShown :
      (c : Console) (color : ℤ) → IsShown v c → IsShown v (set_term_color v c color).1
  unfolding set_term_color
  set_term_color-IsShown c color s = elim (Option-cases (color_byte v color)) [
    | inl e ↦ rw (set_term_color, e) s
    | inr (b, e) ↦
        rw (set_term_color, e) (record { row_in = s.row_in; col_in = s.col_in; sent = s.sent })
  ]

  -- The hardware cursor stands at the cell of the cursor while the cursor is visible, and at
  -- CONSOLE_SIZE + 0xbeef, beyond the screen, while it is hidden: printing any string, set_cursor,
  -- set_term_color, hide_cursor, show_cursor and clear_console all keep this.
  pub operations-IsShown :
      (c : Console)
      → IsShown v c
      → ((str : List ℕ) → IsShown v (putbytes v c str))
        × ((row col : ℤ) → IsShown v (set_cursor v c row col).1)
        × ((color : ℤ) → IsShown v (set_term_color v c color).1)
        × IsShown v (hide_cursor v c)
        × IsShown v (show_cursor v c)
        × IsShown v (clear_console v c)
  operations-IsShown c s = (
    λ str. putbytes-closed v (IsShown v) draw_char-IsShown set_cursor-IsShown str s,
    λ row col. set_cursor-IsShown c row col s,
    λ color. set_term_color-IsShown c color s,
    hide_cursor-IsShown c s,
    show_cursor-IsShown c s,
    clear_console-closed v (IsShown v) draw_char-IsShown set_cursor-IsShown s,
  )
