-- ===== src/Bits/Tests.antt =====
-- The puzzles of C/CSAPPLab/bits/bits.c on the values of its comments, and the theorems applied.
use code_snippet.Prelude.{◌≡◌, refl, arith, some}
use code_snippet.Bits.Integer.{
  bit_and, bit_xor, third_bits, fits_bits, sign, get_byte, logical_shift, bang, conditional,
  is_power2, tmin, is_positive, negate, is_less_or_equal, divpwr2, ilog2, bit_count,
}
use code_snippet.Bits.Float.{float_neg, normalize, pack, float_i2f, float_twice}
use code_snippet.Bits.Division.{divpwr2_lem}
use code_snippet.Bits.Signs.{sign_lem, is_positive_lem, is_less_or_equal_lem}

third_bits_value : third_bits ≡ 0x49249249
unfolding third_bits
third_bits_value = refl

comment_values :
    (bit_and 6 5 ≡ 4)
    × (bit_xor 4 5 ≡ 1)
    × (fits_bits 5 3 ≡ 0)
    × (fits_bits 0xFFFFFFFC 3 ≡ 1)
    × (get_byte 0x12345678 1 ≡ 0x56)
    × (logical_shift 0x87654321 4 ≡ 0x08765432)
    × (bang 3 ≡ 0)
    × (bang 0 ≡ 1)
    × (conditional 2 4 5 ≡ 4)
unfolding bit_and bit_xor fits_bits get_byte logical_shift bang conditional
comment_values = (refl, refl, refl, refl, refl, refl, refl, refl, refl)

more_values :
    (is_power2 5 ≡ 0)
    × (is_power2 8 ≡ 1)
    × (tmin ≡ 0x80000000)
    × (negate 1 ≡ 0xFFFFFFFF)
    × (divpwr2 15 1 ≡ 7)
    × (divpwr2 0xFFFFFFDF 4 ≡ 0xFFFFFFFE)
    × (ilog2 16 ≡ 4)
    × (bit_count 7 ≡ 3)
unfolding is_power2 tmin negate divpwr2 ilog2 bit_count
more_values = (refl, refl, refl, refl, refl, refl, refl, refl)

-- 1.0f and -2.0f, and twice 1.0f.
float_values :
    (float_i2f 1 ≡ some 0x3F800000)
    × (float_i2f 0xFFFFFFFE ≡ some 0xC0000000)
    × (float_neg 0x3F800000 ≡ 0xBF800000)
    × (float_twice 0x3F800000 ≡ 0x40000000)
unfolding float_i2f normalize pack float_neg float_twice
float_values = (refl, refl, refl, refl)

sign_lem_example : sign 0xFFFFFFE9 ≡ 0xFFFFFFFF
sign_lem_example = sign_lem 0xFFFFFFE9 (omega arith)

is_positive_lem_example : is_positive 0xFFFFFFFF ≡ 0
is_positive_lem_example = is_positive_lem 0xFFFFFFFF (omega arith)

is_less_or_equal_lem_example : is_less_or_equal 4 5 ≡ 1
is_less_or_equal_lem_example = is_less_or_equal_lem 4 5 (omega arith) (omega arith)

-- -33 by 16
divpwr2_lem_example : divpwr2 0xFFFFFFDF 4 ≡ 0xFFFFFFFE
divpwr2_lem_example = divpwr2_lem 0xFFFFFFDF 4 (omega arith) (omega arith)
