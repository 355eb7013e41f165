-- ===== src/Console/Blank.antt =====
-- Rows of console.c's screen that are blanked.
use unix_kernel.Base.{
  ℕ, zero, suc, ◌+◌, ◌*◌, ◌≤◌, ◌<◌, ◌≡◌, sym, ap, ap₂, subst, ◌∙◌, arith, pos, ◌==◌, eq_of_==,
  ne_of_==, Bool-cases, inl, inr,
}
use unix_kernel.Console.{Video, Console, draw_char, write_cell, blank_row, space}
use unix_kernel.Console.Cells.{draw_char-pos, write_cell-char, write_cell-color, write_cell-other}

-- A cell's character and color.
abbrev pub cell : Console → ℕ → ℕ × ℕ
cell c n = (c.mem (2 * n), c.mem (2 * n + 1))

-- The cells from `lo` on below `hi` are spaces in `color`, all other memory is as it was.
pub record IsBlanked (old : Console) (color lo hi : ℕ) (c : Console) : Type 0 where
  pub done : (n : ℕ) → lo ≤ n → n < hi → cell c n ≡ (space, color)
  pub before : (a : ℕ) → a < 2 * lo → c.mem a ≡ old.mem a
  pub after : (a : ℕ) → 2 * hi ≤ a → c.mem a ≡ old.mem a
  pub others : c ≡ record old { mem = c.mem }

pub with_mem :
    (mem : ℕ → ℕ) (c old : Console)
    → c ≡ record old { mem = c.mem }
    → record c { mem = mem } ≡ record old { mem = mem }
with_mem mem c old e = ap {A = Console} {B = Console} (λ x. record x { mem = mem }) e

module _ (v : Video) (old : Console) where
  open v use {width, height}

  module _ (row color : ℕ) (row_in : row < height) (color_in : color < 256) where
    blank_cell-IsBlanked :
        (lo j : ℕ) {c : Console}
        → j < width
        → lo ≤ row * width + j
        → IsBlanked old color lo (row * width + j) c
        → IsBlanked old color lo
            (suc (row * width + j))
            (write_cell v c (row * width + j) space color)
    blank_cell-IsBlanked lo j {c} k le s =
        let m = row * width + j in
        record {
          done = λ n at lt. elim (Bool-cases (n == m)) [
            | inl e ↦
                subst (λ x. cell (write_cell v c m space color) x ≡ (space, color))
                  (sym (eq_of_== n m e))
                  (ap₂ (λ x y. (x, y)) (write_cell-char v c m space color)
                    (write_cell-color v c m space color))
            | inr e ↦
                let ne = ne_of_== n m e in
                ap₂ (λ x y. (x, y))
                  (write_cell-other v c m space color (2 * n) (omega arith) (omega arith))
                  (write_cell-other v c m space color (2 * n + 1) (omega arith) (omega arith))
                ∙ s.done n at (omega arith)
          ];
          before = λ a lt.
              write_cell-other v c m space color a (omega arith) (omega arith) ∙ s.before a lt;
          after = λ a at.
              write_cell-other v c m space color a (omega arith) (omega arith)
              ∙ s.after a (omega arith);
          others = unfold write_cell in with_mem (write_cell v c m space color).mem c old s.others;
        }

    pub blank_row-IsBlanked :
        (k j lo : ℕ) {c : Console}
        → k + j ≡ width
        → lo ≤ row * width + j
        → IsBlanked old color lo (row * width + j) c
        → IsBlanked old color lo (row * width + width) (blank_row v k row j color c)
    unfolding blank_row
    blank_row-IsBlanked zero j lo {c} e le s =
        let m : row * width + j ≡ row * width + width = omega arith in
        subst (λ n. IsBlanked old color lo n c) m s
    blank_row-IsBlanked (suc k) j lo {c} e le s =
        let m : suc (row * width + j) ≡ row * width + (j + 1) = omega arith in
        blank_row-IsBlanked k (j + 1) lo (omega arith) (omega arith) (
          subst
            (λ n.
              IsBlanked old color lo n (draw_char v c (pos row) (pos j) (pos space) (pos color)))
            m
            (subst (IsBlanked old color lo (suc (row * width + j)))
              (sym (draw_char-pos v c row j (pos space) color row_in (omega arith) color_in))
              (blank_cell-IsBlanked lo j (omega arith) le s)))
