-- ===== src/Console/Scroll.antt =====
-- What console_scroll_up of console.c makes of the screen.
use unix_kernel.Base.{
  ℕ, zero, suc, ◌+◌, ◌-◌, ◌*◌, ◌≤◌, ◌<◌, ◌≡◌, refl, sym, ap, ap₂, subst, ◌∙◌, true, false, arith,
  pos, ltb, ◌==◌, eq_of_==, ne_of_==, Bool-cases, inl, inr, if◌then◌else◌,
}
use unix_kernel.Console.{
  Video, Console, write_cell, get_char, get_color, int_of_char, scroll_cell, scroll_row,
  scroll_rows, console_scroll_up, space,
}
use unix_kernel.Console.Cells.{
  draw_char-pos, draw_char-negsuc, get_char-pos, get_color-pos, write_cell-char, write_cell-color,
  write_cell-other, char_of_int_of_char,
}
use unix_kernel.Console.Blank.{cell, IsBlanked, with_mem, blank_row-IsBlanked}

-- What scrolling puts into cell `n`: the cell below it, but only where that one's color, read as a
-- signed character, is not negative.
abbrev pub from_below : (width : ℕ) → Console → ℕ → ℕ × ℕ
from_below width c n =
    if ltb (c.mem (2 * (n + width) + 1)) 128 then cell c (n + width) else cell c n

-- The first `m` cells are done, the memory from the next cell on is as it was.
record IsScrolled (width : ℕ) (old : Console) (m : ℕ) (c : Console) : Type 0 where
  done : (n : ℕ) → n < m → cell c n ≡ from_below width old n
  rest : (a : ℕ) → 2 * m ≤ a → c.mem a ≡ old.mem a
  others : c ≡ record old { mem = c.mem }

last_row_end : (h w : ℕ) → 0 < h → (h - 1) * w + w ≡ h * w
last_row_end zero w pos_h = ground arith
last_row_end (suc h) w pos_h = let e : suc h - 1 ≡ h = omega arith in rw e (omega arith)

module _ (v : Video) (old : Console) where
  open v use {width, height}

  module _ (bytes : (a : ℕ) → old.mem a < 256) where
    scroll_write :
        (m : ℕ) {c : Console}
        → ltb (old.mem (2 * (m + width) + 1)) 128 ≡ true
        → IsScrolled width old m c
        → IsScrolled width old
            (suc m)
            (write_cell v c m (old.mem (2 * (m + width))) (old.mem (2 * (m + width) + 1)))
    scroll_write m {c} low s =
        let ch = old.mem (2 * (m + width)) in
        let color = old.mem (2 * (m + width) + 1) in
        record {
          done = λ n lt. elim (Bool-cases (n == m)) [
            | inl e ↦
                subst (λ x. cell (write_cell v c m ch color) x ≡ from_below width old x)
                  (sym (eq_of_== n m e))
                  (ap₂ (λ x y. (x, y)) (write_cell-char v c m ch color)
                      (write_cell-color v c m ch color)
                    ∙ rw low refl)
            | inr e ↦
                let ne = ne_of_== n m e in
                ap₂ (λ x y. (x, y))
                  (write_cell-other v c m ch color (2 * n) (omega arith) (omega arith))
                  (write_cell-other v c m ch color (2 * n + 1) (omega arith) (omega arith))
                ∙ s.done n (omega arith)
          ];
          rest = λ a le.
              write_cell-other v c m ch color a (omega arith) (omega arith)
              ∙ s.rest a (omega arith);
          others = unfold write_cell in with_mem (write_cell v c m ch color).mem c old s.others;
        }

    scroll_keep :
        (m : ℕ) {c : Console}
        → ltb (old.mem (2 * (m + width) + 1)) 128 ≡ false
        → IsScrolled width old m c
        → IsScrolled width old (suc m) c
    scroll_keep m {c} high s = record {
      done = λ n lt. elim (Bool-cases (n == m)) [
        | inl e ↦
            subst (λ x. cell c x ≡ from_below width old x) (sym (eq_of_== n m e))
              (ap₂ (λ x y. (x, y)) (s.rest (2 * m) (omega arith)) (s.rest (2 * m + 1) (omega arith))
                ∙ rw high refl)
        | inr e ↦ let ne = ne_of_== n m e in s.done n (omega arith)
      ];
      rest = λ a le. s.rest a (omega arith);
      others = s.others;
    }

    scroll_cell-IsScrolled :
        (i j : ℕ) {c : Console}
        → suc i < height
        → j < width
        → IsScrolled width old (i * width + j) c
        → IsScrolled width old (suc (i * width + j)) (scroll_cell v c (suc i) j)
    unfolding scroll_cell
    scroll_cell-IsScrolled i j {c} r k s =
        let m = i * width + j in
        let below : suc i * width + j ≡ m + width = omega arith in
        let ch = old.mem (2 * (m + width)) in
        let color = old.mem (2 * (m + width) + 1) in
        let above : suc i - 1 ≡ i = omega arith in
        let ch_is : get_char v c (pos (suc i)) (pos j) ≡ ch =
          get_char-pos v c (suc i) j r k
          ∙ ap (λ n. c.mem (2 * n)) below
          ∙ s.rest (2 * (m + width)) (omega arith) in
        let color_is : get_color v c (pos (suc i)) (pos j) ≡ color =
          get_color-pos v c (suc i) j r k
          ∙ ap (λ n. c.mem (2 * n + 1)) below
          ∙ s.rest (2 * (m + width) + 1) (omega arith) in
        elim (Bool-cases (ltb color 128)) [
          | inl low ↦
              rw (above, ch_is, color_is, low)
                (subst (IsScrolled width old (suc m))
                  (sym (
                    draw_char-pos v c i j (int_of_char ch) color (omega arith) k (bytes _)
                    ∙ ap (λ x. write_cell v c m x color) (char_of_int_of_char ch (bytes _))))
                  (scroll_write m low s))
          | inr high ↦
              rw (above, ch_is, color_is, high)
                (subst (IsScrolled width old (suc m))
                  (sym (draw_char-negsuc v c (pos i) (pos j) (int_of_char ch) (255 - color)))
                  (scroll_keep m high s))
        ]

    scroll_row-IsScrolled :
        (k i j : ℕ) {c : Console}
        → suc i < height
        → k + j ≡ width
        → IsScrolled width old (i * width + j) c
        → IsScrolled width old (suc i * width) (scroll_row v k (suc i) j c)
    unfolding scroll_row
    scroll_row-IsScrolled zero i j {c} r e s =
        let m : i * width + j ≡ suc i * width = omega arith in
        subst (λ n. IsScrolled width old n c) m s
    scroll_row-IsScrolled (suc k) i j {c} r e s =
        let m : suc (i * width + j) ≡ i * width + (j + 1) = omega arith in
        scroll_row-IsScrolled k i (j + 1) r (omega arith) (
          subst (λ n. IsScrolled width old n (scroll_cell v c (suc i) j)) m
            (scroll_cell-IsScrolled i j r (omega arith) s))

    scroll_rows-IsScrolled :
        (k i : ℕ) {c : Console}
        → k + suc i ≡ height
        → IsScrolled width old (i * width) c
        → IsScrolled width old ((height - 1) * width) (scroll_rows v k (suc i) c)
    unfolding scroll_rows
    scroll_rows-IsScrolled zero i {c} e s =
        let m : i ≡ height - 1 = omega arith in subst (λ n. IsScrolled width old (n * width) c) m s
    scroll_rows-IsScrolled (suc k) i {c} e s =
        let m : i * width ≡ i * width + 0 = omega arith in
        let next : suc i + 1 ≡ suc (suc i) = omega arith in
        rw next (
          scroll_rows-IsScrolled k (suc i) (omega arith) (
            scroll_row-IsScrolled width i 0 (omega arith) (omega arith)
              (subst (λ n. IsScrolled width old n c) m s)))

-- console_scroll_up moves every cell up by one row, but leaves a cell as it is where the one below
-- has a color of 128 or more, which get_color's `char` makes negative and draw_char then refuses.
-- The last row becomes spaces in the terminal's color. Only the memory of the screen changes.
pub console_scroll_up_lem :
    (v : Video) (c : Console)
    → ((a : ℕ) → c.mem a < 256)
    → c.term_color < 256
    → (console_scroll_up v c ≡ record c { mem = (console_scroll_up v c).mem })
      × ((n : ℕ)
          → n < (v.height - 1) * v.width
          → cell (console_scroll_up v c) n ≡ from_below v.width c n)
      × ((n : ℕ)
          → (v.height - 1) * v.width ≤ n
          → n < v.height * v.width
          → cell (console_scroll_up v c) n ≡ (space, c.term_color))
      × ((a : ℕ) → 2 * (v.height * v.width) ≤ a → (console_scroll_up v c).mem a ≡ c.mem a)
unfolding console_scroll_up
console_scroll_up_lem v c bytes color_in =
    let height_pos = v.height_pos in
    let m = (v.height - 1) * v.width in
    let up = scroll_rows v (v.height - 1) 1 c in
    let s : IsScrolled v.width c m up =
      scroll_rows-IsScrolled v c bytes (v.height - 1) 0 (omega arith)
        (record { done = λ n lt. ground arith; rest = λ a le. refl; others = refl }) in
    let at : m ≡ m + 0 = omega arith in
    let last_row : m + v.width ≡ v.height * v.width = last_row_end v.height v.width height_pos in
    let b : IsBlanked up c.term_color m (v.height * v.width) (console_scroll_up v c) =
      subst (λ n. IsBlanked up c.term_color m n (console_scroll_up v c)) last_row
        (blank_row-IsBlanked v up (v.height - 1) c.term_color (omega arith) color_in v.width 0 m
          (omega arith) (omega arith)
          (subst (λ n. IsBlanked up c.term_color m n up) at
            (record {
              done = λ n le lt. ground arith;
              before = λ a lt. refl;
              after = λ a le. refl;
              others = refl;
            }))) in
    (
      b.others ∙ with_mem (console_scroll_up v c).mem up c s.others,
      λ n lt.
          ap₂ (λ x y. (x, y)) (b.before (2 * n) (omega arith)) (b.before (2 * n + 1) (omega arith))
          ∙ s.done n lt,
      b.done,
      λ a le. b.after a le ∙ s.rest a (omega arith),
    )
