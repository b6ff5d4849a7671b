-- ===== src/Transpose.antt =====
-- The matrix transpose of C/CSAPPLab/cache/trans.c. A matrix is the array of its rows in memory, one after
-- the other; A and B lie apart.
pub mod Entries
mod Tests
use code_snippet.Prelude.{
  ℕ, zero, suc, ◌+◌, ◌*◌, Bool, true, false, ◌==◌, if◌then◌else◌, update, for_range,
}

abbrev pub Matrix : Type 0
Matrix = ℕ → ℕ

-- The place of A[i][j], and of B[i][j], in a matrix whose rows are of `width` entries.
abbrev pub place : ℕ → ℕ → ℕ → ℕ
place width i j = i * width + j

-- B[j][i] = A[i][j]
abbrev pub store : ℕ → ℕ → Matrix → ℕ → ℕ → Matrix → Matrix
store m n a i j b = update b (place n j i) (a (place m i j))

abbrev pub trans_row : ℕ → ℕ → Matrix → ℕ → Matrix → Matrix
trans_row m n a i b = for_range m 0 (λ j c. store m n a i j c) b

unfoldable pub trans : ℕ → ℕ → Matrix → Matrix → Matrix
trans m n a b = for_range n 0 (λ i c. trans_row m n a i c) b

-- The inner loop from column `j` on, with `columns` to go; `false` is the early return.
unfoldable pub same_row : ℕ → ℕ → ℕ → ℕ → ℕ → Matrix → Matrix → Bool
same_row m n zero i j a b = true
same_row m n (suc columns) i j a b =
    let rest = same_row m n columns i (j + 1) a b in
    if a (place m i j) == b (place n j i) then rest else false

unfoldable pub same_rows : ℕ → ℕ → ℕ → ℕ → Matrix → Matrix → Bool
same_rows m n zero i a b = true
same_rows m n (suc rows) i a b =
    let rest = same_rows m n rows (i + 1) a b in if same_row m n m i 0 a b then rest else false

unfoldable pub is_transpose : ℕ → ℕ → Matrix → Matrix → Bool
is_transpose m n a b = same_rows m n n 0 a b
