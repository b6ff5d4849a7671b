-- ===== src/Transpose/Entries.antt =====
-- The entries that the loops of C/CSAPPLab/cache/trans.c write and compare.
use code_snippet.Prelude.{
  ℕ, zero, suc, ◌+◌, ◌*◌, ◌/◌, ◌<◌, ◌≤◌, ◌≡◌, ◌≢◌, inl, inr, refl, ◌∙◌, sym, ap, arith, true, ◌==◌,
  Bool-cases, for_range, update, update_self, update_ne,
}
use native.Mathlib.Nat.{mul-add-div_right, div-eq_of_lt, mul-le-mul_right, suc-mul}
use code_snippet.Transpose.{
  Matrix, place, store, trans_row, trans, same_row, same_rows, is_transpose,
}

same_place : (n j k i l : ℕ) → i < n → l < n → place n j i ≡ place n k l → (j ≡ k) × (i ≡ l)
same_place n j k i l a b e =
    let pos : 0 < n = omega (arith, a) in
    let first : place n j i / n ≡ j =
      mul-add-div_right pos j i ∙ ap (λ q. j + q) (div-eq_of_lt a) ∙ omega arith in
    let second : place n k l / n ≡ k =
      mul-add-div_right pos k l ∙ ap (λ q. k + q) (div-eq_of_lt b) ∙ omega arith in
    let row : j ≡ k = sym first ∙ ap (λ q. q / n) e ∙ second in
    let shift : k * n + i ≡ k * n + l = ap (λ r. r * n + i) (sym row) ∙ e in
    (row, omega (arith, shift))

-- The last place of the matrix is before place m * n.
inside : (m n j i : ℕ) → j < m → i < n → place n j i < m * n
inside m n j i a b =
    let rows : suc j * n ≤ m * n = mul-le-mul_right n a in
    let more = suc-mul j n in omega (arith, rows, more, b)

module _ (m n : ℕ) (a : Matrix) where
  -- What holds of the places of the other columns, and of those behind the matrix.
  row-other :
      (rounds j0 i x : ℕ) (b : Matrix)
      → ((j : ℕ) → j0 ≤ j → j < j0 + rounds → place n j i ≢ x)
      → for_range rounds j0 (λ l c. store m n a i l c) b x ≡ b x
  unfolding for_range
  row-other zero j0 i x b far = refl
  row-other (suc rounds) j0 i x b far =
      row-other rounds (j0 + 1) i x (store m n a i j0 b)
        (λ j p q. far j (omega (arith, p)) (omega (arith, q)))
      ∙ update_ne b (place n j0 i) x (a (place m i j0)) (far j0 (omega arith) (omega arith))

  row-at :
      (rounds j0 i j : ℕ) (b : Matrix)
      → i < n
      → j0 ≤ j
      → j < j0 + rounds
      → for_range rounds j0 (λ l c. store m n a i l c) b (place n j i) ≡ a (place m i j)
  unfolding for_range
  row-at zero j0 i j b l x y = absurd (omega (arith, x, y))
  row-at (suc rounds) j0 i j b l x y = elim (Bool-cases (j0 == j)) [
    | inl e ↦
        (let same : j0 ≡ j = ground (arith, e) in
          row-other rounds (j0 + 1) i (place n j i) (store m n a i j0 b)
            (λ k p q f. absurd (omega (arith, p, same, (same_place n k j i i l l f).0)))
          ∙ ap (λ k. update b (place n j0 i) (a (place m i j0)) (place n k i)) (sym same)
          ∙ update_self b (place n j0 i) (a (place m i j0))
          ∙ ap (λ k. a (place m i k)) same)
    | inr e ↦
        row-at rounds (j0 + 1) i j (store m n a i j0 b) l (ground (arith, e, x)) (omega (arith, y))
  ]

  rows-other :
      (rounds i0 x : ℕ) (b : Matrix)
      → ((i j : ℕ) → i0 ≤ i → i < i0 + rounds → j < m → place n j i ≢ x)
      → for_range rounds i0 (λ i c. trans_row m n a i c) b x ≡ b x
  unfolding for_range
  rows-other zero i0 x b far = refl
  rows-other (suc rounds) i0 x b far =
      rows-other rounds (i0 + 1) x (trans_row m n a i0 b)
        (λ i j p q r. far i j (omega (arith, p)) (omega (arith, q)) r)
      ∙ row-other m 0 i0 x b (λ j p q. far i0 j (omega arith) (omega arith) (omega (arith, q)))

  rows-at :
      (rounds i0 i j : ℕ) (b : Matrix)
      → i0 ≤ i
      → i < i0 + rounds
      → i0 + rounds ≤ n
      → j < m
      → for_range rounds i0 (λ i c. trans_row m n a i c) b (place n j i) ≡ a (place m i j)
  unfolding for_range
  rows-at zero i0 i j b x y w l = absurd (omega (arith, x, y))
  rows-at (suc rounds) i0 i j b x y w l = elim (Bool-cases (i0 == i)) [
    | inl e ↦
        (let same : i0 ≡ i = ground (arith, e) in
          rows-other rounds (i0 + 1) (place n j i) (trans_row m n a i0 b) (λ k h p q r f. absurd (
            omega (
              arith,
              p,
              same,
              (same_place n h j k i (omega (arith, q, w)) (omega (arith, y, w)) f).1,
            )))
          ∙ ap (λ z. trans_row m n a z b (place n j i)) same
          ∙ row-at m 0 i j b (omega (arith, y, w)) (omega arith) (omega (arith, l)))
    | inr e ↦
        rows-at rounds (i0 + 1) i j (trans_row m n a i0 b) (ground (arith, e, x)) (omega (arith, y))
          (omega (arith, w)) l
  ]

  same_row-true :
      (columns i j : ℕ) (b : Matrix)
      → ((l : ℕ) → j ≤ l → l < j + columns → a (place m i l) ≡ b (place n l i))
      → same_row m n columns i j a b ≡ true
  unfolding same_row
  same_row-true zero i j b same = refl
  same_row-true (suc columns) i j b same =
      let rest =
        same_row-true columns i (j + 1) b (λ l x y. same l (omega (arith, x)) (omega (arith, y))) in
      let here : (a (place m i j) == b (place n j i)) ≡ true =
        equal_test (a (place m i j)) (b (place n j i)) (same j (omega arith) (omega arith)) in
      rw (here, rest) refl
    where
      equal_test : (x y : ℕ) → x ≡ y → (x == y) ≡ true
      equal_test x y e = ground (arith, e)

  same_rows-true :
      (rows i : ℕ) (b : Matrix)
      → ((k l : ℕ) → i ≤ k → k < i + rows → l < m → a (place m k l) ≡ b (place n l k))
      → same_rows m n rows i a b ≡ true
  unfolding same_rows
  same_rows-true zero i b same = refl
  same_rows-true (suc rows) i b same =
      let rest =
        same_rows-true rows (i + 1) b
          (λ k l x y z. same k l (omega (arith, x)) (omega (arith, y)) z) in
      let here =
        same_row-true m i 0 b (λ l x y. same i l (omega arith) (omega arith) (omega (arith, y))) in
      rw (here, rest) refl

-- With A and B apart, the check of a transpose accepts what `trans` stores, and `trans` leaves the memory at a
-- place `x` behind the M * N entries of B alone.
pub is_transpose-trans :
    (m n : ℕ) (a b : Matrix) (x : ℕ)
    → m * n ≤ x
    → (is_transpose m n a (trans m n a b) ≡ true) × (trans m n a b x ≡ b x)
unfolding trans is_transpose
is_transpose-trans m n a b x l = (
  same_rows-true m n a n 0 (for_range n 0 (λ i c. trans_row m n a i c) b)
      (λ r c p q z. sym (rows-at m n a n 0 r c b p q (omega arith) z)),
  rows-other m n a n 0 x b
      (λ i j p q z e. absurd (omega (arith, l, e, inside m n j i z (omega (arith, q))))),
)
