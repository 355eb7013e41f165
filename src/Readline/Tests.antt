-- ===== src/Readline/Tests.antt =====
-- Characters typed on a screen of two rows of three cells, into a buffer of four characters.
use unix_kernel.Base.{ℕ, ◌≡◌, refl, true, false, some, List, [], ◌∷◌, ◌++◌, arith}
use unix_kernel.CircBuf.{CircBuf}
use unix_kernel.CircBuf.Refine.{Holds, holds, IsValid, contents}
use unix_kernel.Console.{Video, Console}
use unix_kernel.Readline.{Typed, newline, fill_cons, copy_line}
use unix_kernel.Readline.Lines.{AreTyped, typed_line_lem}

abbrev tiny : Video
tiny = record {
  width = 3;
  height = 2;
  default_color = 7;
  crtc_idx_reg = 980;
  crtc_data_reg = 981;
  crtc_cursor_msb_idx = 14;
  crtc_cursor_lsb_idx = 15;
  width_pos = omega arith;
  height_pos = omega arith;
  default_color_byte = omega arith;
  small = omega arith;
}

abbrev dark : Console
dark = record {
  mem = λ _. 0;
  cursor_row = 0;
  cursor_col = 0;
  cursor_is_visible = false;
  term_color = 7;
  ports = [];
}

-- The indices stand in the middle, so that the line wraps around.
abbrev idle : CircBuf
idle = record { buf = 0 ∷ 0 ∷ 0 ∷ 0 ∷ []; start = 2; end = 2; len = 4; full = false }

idle-IsValid : IsValid idle
idle-IsValid = record {
  storage = refl;
  start_in = omega arith;
  end_in = omega arith;
  meets = λ e. ground arith;
}

idle-empty : contents idle ≡ []
unfolding contents
idle-empty = refl

abbrev at_rest : Typed
at_rest = record { cons_buf = some idle; screen = dark; signals = 0 }

-- "ab", a newline and a "c"; readline takes at most ten characters.
abbrev line : List ℕ
line = b'a' ∷ b'b' ∷ []

abbrev more : List ℕ
more = b'c' ∷ []

typed-AreTyped : AreTyped (line ++ newline ∷ more)
typed-AreTyped = (
  λ e. omega arith,
  λ e. omega arith,
  (
    λ e. omega arith,
    λ e. omega arith,
    (λ e. omega arith, λ e. omega arith, (λ e. omega arith, λ e. omega arith, tt)),
  ),
)

typed_line_lem_example :
    ((copy_line 10 (fill_cons tiny true at_rest (line ++ newline ∷ more)).cons_buf).0
      ≡ line ++ newline ∷ [])
    × Holds 4 more (copy_line 10 (fill_cons tiny true at_rest (line ++ newline ∷ more)).cons_buf).1
typed_line_lem_example =
    typed_line_lem tiny true line more 10 at_rest (holds idle-IsValid refl idle-empty)
      typed-AreTyped (λ e. omega arith, (λ e. omega arith, tt)) (omega arith) (omega arith)
