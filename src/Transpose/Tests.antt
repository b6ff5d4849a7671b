-- ===== src/Transpose/Tests.antt =====
-- A matrix of two rows and three columns, transposed by C/CSAPPLab/cache/trans.c.
use code_snippet.Prelude.{◌+◌, ◌≡◌, refl, arith, true, false, for_range}
use code_snippet.Transpose.{Matrix, trans, is_transpose, same_row, same_rows}
use code_snippet.Transpose.Entries.{is_transpose-trans}

abbrev digits : Matrix
digits p = 10 + p

abbrev blank : Matrix
blank p = 99

-- 10 11 12 and 13 14 15
transposed :
    (trans 3 2 digits blank 1 ≡ 13)
    × (trans 3 2 digits blank 4 ≡ 12)
    × (trans 3 2 digits blank 6 ≡ 99)
    × (is_transpose 3 2 digits blank ≡ false)
unfolding trans for_range is_transpose same_rows same_row
transposed = (refl, refl, refl, refl)

is_transpose-trans_example :
    (is_transpose 3 2 digits (trans 3 2 digits blank) ≡ true) × (trans 3 2 digits blank 6 ≡ 99)
is_transpose-trans_example = is_transpose-trans 3 2 digits blank 6 (omega arith)
