-- ===== src/Readline/Lines.antt =====
-- What readline.c hands out of what was typed.
use unix_kernel.Base.{
  ℕ, zero, suc, ◌+◌, ◌≤◌, ◌<◌, ◌≡◌, ◌≢◌, refl, sym, ap, subst, ◌∙◌, Bool, Bool-cases, inl, inr,
  Option, List, [], ◌∷◌, ◌++◌, append-nil, append_assoc, arith, ◌==◌, ==_of_ne, if◌then◌else◌,
  length, length-append,
}
use unix_kernel.CircBuf.{CircBuf, no_char}
use unix_kernel.CircBuf.Refine.{Holds, get-Holds, put-Holds}
use unix_kernel.Console.{Video}
use unix_kernel.Readline.{Typed, backspace, newline, fill_char, fill_cons, copy_line}

-- The first line of what is there, at most `len` characters, and what comes behind it.
abbrev pub first_line : (len : ℕ) → List ℕ → List ℕ
first_line zero q = []
first_line (suc len) [] = []
first_line (suc len) (x ∷ q) = if x == newline then x ∷ [] else x ∷ first_line len q

abbrev pub behind_line : (len : ℕ) → List ℕ → List ℕ
behind_line zero q = q
behind_line (suc len) [] = []
behind_line (suc len) (x ∷ q) = if x == newline then q else behind_line len q

-- No -1 among the characters.
abbrev pub AreChars : List ℕ → Type 0
AreChars [] = Unit {0}
AreChars (x ∷ q) = (x ≢ no_char) × AreChars q

-- From a buffer that holds characters other than -1, readline's loop copies the first line, its
-- newline included, or as much of it as fits, and the buffer holds the rest.
pub copy_line_lem :
    (len : ℕ) {cap : ℕ} (q : List ℕ) {cb : Option CircBuf}
    → Holds cap q cb
    → AreChars q
    → ((copy_line len cb).0 ≡ first_line len q) × Holds cap (behind_line len q) (copy_line len cb).1
unfolding copy_line
copy_line_lem zero q h chars = (refl, h)
copy_line_lem (suc len) [] h chars = let (got, left) = (get-Holds h).0 refl in rw got (refl, left)
copy_line_lem (suc len) (x ∷ q) h (char, chars) =
    let (got, left) = (get-Holds h).1 x q refl in
    let some_char = ==_of_ne x no_char char in
    elim (Bool-cases (x == newline)) [
      | inl e ↦ rw (got, some_char, e) (refl, left)
      | inr e ↦
          let (line, rest) = copy_line_lem len q left chars in
          rw (got, some_char, e) (ap (λ (l : List ℕ). x ∷ l) line, rest)
    ]

-- Characters that fill_cons only puts into the buffer.
abbrev pub AreTyped : List ℕ → Type 0
AreTyped [] = Unit {0}
AreTyped (x ∷ q) = (x ≢ no_char) × (x ≢ backspace) × AreTyped q

abbrev pub NoNewline : List ℕ → Type 0
NoNewline [] = Unit {0}
NoNewline (x ∷ q) = (x ≢ newline) × NoNewline q

AreChars-typed : (q : List ℕ) → AreTyped q → AreChars q
AreChars-typed [] t = tt
AreChars-typed (x ∷ q) (char, _, t) = (char, AreChars-typed q t)

first_line-newline :
    (len : ℕ) (line more : List ℕ)
    → NoNewline line
    → length line < len
    → (first_line len (line ++ newline ∷ more) ≡ line ++ newline ∷ [])
      × (behind_line len (line ++ newline ∷ more) ≡ more)
first_line-newline zero line more plain fits = absurd (omega arith)
first_line-newline (suc len) [] more plain fits = (refl, refl)
first_line-newline (suc len) (x ∷ line) more (other, plain) fits =
    let (first, behind) = first_line-newline len line more plain (omega arith) in
    rw (==_of_ne x newline other) (ap (λ (l : List ℕ). x ∷ l) first, behind)

module _ (v : Video) (waiting : Bool) where
  fill_char-Holds :
      (c : ℕ) {cap : ℕ} {q : List ℕ} (s : Typed)
      → Holds cap q s.cons_buf
      → length q < cap
      → c ≢ backspace
      → Holds cap (q ++ c ∷ []) (fill_char v waiting s c).cons_buf
  unfolding fill_char
  fill_char-Holds c s h room other = rw (fill_char, ==_of_ne c backspace other) (put-Holds c h room)

  fill_cons-Holds :
      (typed : List ℕ) {cap : ℕ} (q : List ℕ) (s : Typed)
      → Holds cap q s.cons_buf
      → AreTyped typed
      → length q + length typed ≤ cap
      → Holds cap (q ++ typed) (fill_cons v waiting s typed).cons_buf
  unfolding fill_cons
  fill_cons-Holds [] {cap} q s h t room =
      subst (λ (l : List ℕ). Holds cap l s.cons_buf) (sym (append-nil q)) h
  fill_cons-Holds (c ∷ typed) {cap} q s h (char, other, t) room =
      let one_more = fill_char-Holds c s h (omega arith) other in
      let rest =
        fill_cons-Holds typed (q ++ c ∷ []) (fill_char v waiting s c) one_more t
          (omega (arith, length-append q (c ∷ []))) in
      rw (==_of_ne c no_char char) (
        subst
          (λ (l : List ℕ).
            Holds cap l (fill_cons v waiting (fill_char v waiting s c) typed).cons_buf)
          (append_assoc q (c ∷ []) typed) rest)

  -- When a line without a newline in it, a newline and more are typed into an empty buffer that has
  -- room for them, none of them -1 or a backspace, then readline with room for the line and its newline
  -- copies exactly these, and the buffer holds what was typed behind them.
  pub typed_line_lem :
      (line more : List ℕ) (len : ℕ) {cap : ℕ} (s : Typed)
      → Holds cap [] s.cons_buf
      → AreTyped (line ++ newline ∷ more)
      → NoNewline line
      → length (line ++ newline ∷ more) ≤ cap
      → length line < len
      → let cb = (fill_cons v waiting s (line ++ newline ∷ more)).cons_buf in
        ((copy_line len cb).0 ≡ line ++ newline ∷ []) × Holds cap more (copy_line len cb).1
  typed_line_lem line more len {cap} s h typed plain room fits =
      let all = line ++ newline ∷ more in
      let filled = fill_cons-Holds all [] s h typed (omega arith) in
      let (copied, left) = copy_line_lem len all filled (AreChars-typed all typed) in
      let (first, behind) = first_line-newline len line more plain fits in
      (
        copied ∙ first,
        subst (λ (l : List ℕ). Holds cap l (copy_line len (fill_cons v waiting s all).cons_buf).1)
            behind left,
      )
