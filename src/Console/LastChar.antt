-- ===== src/Console/LastChar.antt =====
-- Where find_last_char of console.c puts the cursor.
use unix_kernel.Base.{
  ℕ, zero, suc, ◌+◌, ◌*◌, ◌≤◌, ◌<◌, ◌≡◌, refl, sym, ap, ◌∙◌, arith, pos, ◌==◌, eq_of_==, ne_of_==,
  Bool-cases, inl, inr, ◌≢◌, ◌⊎◌,
}
use unix_kernel.Console.{Video, Console, get_char, last_char_below, find_last_char, space}
use unix_kernel.Console.Cells.{get_char-pos}

module _ (v : Video) where
  open v use {width, height}

  last_char_below_lem :
      (c : Console) (row k : ℕ)
      → row < height
      → k ≤ width
      → ((last_char_below v c row k ≡ 0)
          × ((j : ℕ) → j < k → c.mem (2 * (row * width + j)) ≡ space))
        ⊎ ((last_char_below v c row k < k)
            × (c.mem (2 * (row * width + last_char_below v c row k)) ≢ space)
            × ((j : ℕ)
                → last_char_below v c row k < j
                → j < k
                → c.mem (2 * (row * width + j)) ≡ space))
  unfolding last_char_below
  last_char_below_lem c row zero r le = inl (refl, λ j lt. ground arith)
  last_char_below_lem c row (suc k) r le =
      let there = get_char-pos v c row k r (omega arith) in
      elim (Bool-cases (get_char v c (pos row) (pos k) == space)) [
        | inl e ↦
            let is : c.mem (2 * (row * width + k)) ≡ space = sym there ∙ eq_of_== _ _ e in
            let at : (j : ℕ) → (j ≡ k) → c.mem (2 * (row * width + j)) ≡ space =
              λ j q. ap (λ i. c.mem (2 * (row * width + i))) q ∙ is in
            elim (last_char_below_lem c row k r (omega arith)) [
              | inl (z, all) ↦ rw e (
                  inl (
                    z,
                    λ j lt. elim (Bool-cases (j == k)) [
                      | inl q ↦ at j (eq_of_== j k q)
                      | inr q ↦ let ne = ne_of_== j k q in all j (omega arith)
                    ],
                  ))
              | inr (lt, ne_space, all) ↦ rw e (
                  inr (
                    omega arith,
                    ne_space,
                    λ j gt below. elim (Bool-cases (j == k)) [
                      | inl q ↦ at j (eq_of_== j k q)
                      | inr q ↦ let ne = ne_of_== j k q in all j gt (omega arith)
                    ],
                  ))
            ]
        | inr e ↦
            rw e (inr (omega arith, λ is. ne_of_== _ _ e (there ∙ is), λ j gt below. ground arith))
      ]

  -- On a row of the screen find_last_char answers 0 when the row is all spaces; else it answers the
  -- last column that has another character.
  pub find_last_char_lem :
      (c : Console) (row : ℕ)
      → row < height
      → ((find_last_char v c row ≡ 0)
          × ((j : ℕ) → j < width → c.mem (2 * (row * width + j)) ≡ space))
        ⊎ ((find_last_char v c row < width)
            × (c.mem (2 * (row * width + find_last_char v c row)) ≢ space)
            × ((j : ℕ)
                → find_last_char v c row < j
                → j < width
                → c.mem (2 * (row * width + j)) ≡ space))
  unfolding find_last_char
  find_last_char_lem c row r = last_char_below_lem c row width r (omega arith)
