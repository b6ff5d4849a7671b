-- ===== src/Bits/Word.antt =====
-- The 32-bit words of C/CSAPPLab/bits/bits.c and the C operators on them. An `int` is the word that
-- holds it: numbers below 2 ^ 31 stand for themselves and the others for themselves less 2 ^ 32.
use Prim.Native.Nat.{bit_and, bit_or, bit_xor}
use code_snippet.Prelude.{ℕ, ◌+◌, ◌-◌, ◌*◌, ◌/◌, ◌%◌, ◌^◌, ◌<◌, Bool, ◌==◌, ltb, if◌then◌else◌}

abbrev pub modulus : ℕ
modulus = 4294967296

abbrev pub half : ℕ
half = 2147483648

abbrev pub all_ones : ℕ
all_ones = 4294967295

abbrev pub IsWord : ℕ → Type 0
IsWord x = x < modulus

abbrev pub is_neg : ℕ → Bool
is_neg x = ltb all_ones (x + half)

-- ~x
abbrev pub bnot : ℕ → ℕ
bnot x = all_ones - x

-- x + y
abbrev pub add : ℕ → ℕ → ℕ
add x y = (x + y) % modulus

-- x << n, for n below 32
abbrev pub shl : ℕ → ℕ → ℕ
shl x n = (x * 2 ^ n) % modulus

-- x >> n on an unsigned word, for n below 32
abbrev pub shr : ℕ → ℕ → ℕ
shr x n = x / 2 ^ n

-- x >> n on an int, for n below 32: the sign is copied in from the left
abbrev pub sar : ℕ → ℕ → ℕ
sar x n = if is_neg x then bnot (bnot x / 2 ^ n) else x / 2 ^ n

-- !x
abbrev pub lnot : ℕ → ℕ
lnot x = if x == 0 then 1 else 0

-- x & y, x | y, x ^ y
abbrev pub band : ℕ → ℕ → ℕ
band x y = bit_and x y

abbrev pub bor : ℕ → ℕ → ℕ
bor x y = bit_or x y

abbrev pub bxor : ℕ → ℕ → ℕ
bxor x y = bit_xor x y
