-- ===== src/Bits/Integer.antt =====
-- The integer puzzles of C/CSAPPLab/bits/bits.c.
use code_snippet.Prelude.{ℕ}
use code_snippet.Bits.Word.{bnot, add, shl, sar, lnot, band, bor, bxor}

unfoldable pub bit_and : ℕ → ℕ → ℕ
bit_and x y = bnot (bor (bnot x) (bnot y))

unfoldable pub bit_xor : ℕ → ℕ → ℕ
bit_xor x y = bnot (band (bnot (band (bnot x) y)) (bnot (band x (bnot y))))

unfoldable pub third_bits : ℕ
third_bits =
    let w1 = bor 1 (shl 1 3) in
    let w2 = bor w1 (shl w1 6) in let w3 = bor w2 (shl w2 12) in bor w3 (shl w3 24)

unfoldable pub fits_bits : ℕ → ℕ → ℕ
fits_bits x n =
    let nonneg = lnot (sar x 31) in
    let shift = add n (bnot 0) in
    bor (band nonneg (lnot (sar x shift))) (band (lnot nonneg) (lnot (sar (bnot x) shift)))

unfoldable pub sign : ℕ → ℕ
sign x = bor (sar x 31) (lnot (lnot x))

unfoldable pub get_byte : ℕ → ℕ → ℕ
get_byte x n = band (sar x (shl n 3)) 0xFF

unfoldable pub logical_shift : ℕ → ℕ → ℕ
logical_shift x n = let mask = bnot (shl (sar (shl 1 31) n) 1) in band mask (sar x n)

unfoldable pub add_ok : ℕ → ℕ → ℕ
add_ok x y =
    let is_x_positive = lnot (sar x 31) in
    let is_y_positive = lnot (sar y 31) in
    let is_xy_diff_sign = bxor is_x_positive is_y_positive in
    let is_r_positive = lnot (sar (add x y) 31) in
    let is_xr_same_sign = lnot (bxor is_x_positive is_r_positive) in
    bor is_xy_diff_sign (band (lnot is_xy_diff_sign) is_xr_same_sign)

-- The five folds of `bang`, each x |= x >> n.
abbrev fold_or : ℕ → ℕ → ℕ
fold_or n x = bor x (sar x n)

unfoldable pub bang : ℕ → ℕ
bang x = bxor (band (fold_or 1 (fold_or 2 (fold_or 4 (fold_or 8 (fold_or 16 x))))) 1) 1

unfoldable pub conditional : ℕ → ℕ → ℕ → ℕ
conditional x y z =
    let mask = sar (shl (lnot (lnot x)) 31) 31 in bor (band mask y) (band (bnot mask) z)

unfoldable pub is_power2 : ℕ → ℕ
is_power2 x = band (lnot (lnot x)) (band (lnot (sar x 31)) (lnot (band x (add x (bnot 0)))))

unfoldable pub tmin : ℕ
tmin = shl 1 31

unfoldable pub is_positive : ℕ → ℕ
is_positive x = let not_zero = lnot (lnot x) in band (sar (shl not_zero 31) 31) (lnot (sar x 31))

unfoldable pub negate : ℕ → ℕ
negate x = add (bnot x) 1

unfoldable pub is_less_or_equal : ℕ → ℕ → ℕ
is_less_or_equal x y =
    let is_x_negative = lnot (lnot (sar x 31)) in
    let is_y_negative = lnot (lnot (sar y 31)) in
    let is_xy_diff_sign = bxor is_x_negative is_y_negative in
    bor (band is_xy_diff_sign is_x_negative) (band (lnot is_xy_diff_sign) (sar (add x (bnot y)) 31))

unfoldable pub divpwr2 : ℕ → ℕ → ℕ
divpwr2 x n =
    let is_negative = sar x 31 in
    let bias = band is_negative (add (shl 1 n) (bnot 0)) in sar (add x bias) n

-- One step of `ilog2`: the word and the sum of the shifts.
abbrev log_step : ℕ → ℕ → ℕ × ℕ → ℕ × ℕ
log_step n k p = let shift = shl (lnot (lnot (sar p.0 n))) k in (sar p.0 shift, add p.1 shift)

unfoldable pub ilog2 : ℕ → ℕ
ilog2 x = (log_step 1 0 (log_step 2 1 (log_step 4 2 (log_step 8 3 (log_step 16 4 (x, 0)))))).1

unfoldable pub bit_count : ℕ → ℕ
bit_count x =
    let m = bor 0x11 (shl 0x11 8) in
    let mask = bor m (shl m 16) in
    let result =
      add (add (add (band x mask) (band (sar x 1) mask)) (band (sar x 2) mask))
        (band (sar x 3) mask) in
    let m1 = bor 0x0F (shl 0x0F 8) in
    let mask1 = bor m1 (shl m1 16) in
    let result1 = add (band result mask1) (band (sar result 4) mask1) in
    let mask2 = bor 0xFF (shl 0xFF 16) in
    let result2 = add (band result1 mask2) (band (sar result1 8) mask2) in
    add (band result2 0xFF) (band (sar result2 16) 0xFF)
