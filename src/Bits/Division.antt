-- ===== src/Bits/Division.antt =====
-- The division by a power of 2 in C/CSAPPLab/bits/bits.c.
use code_snippet.Prelude.{
  ℕ, ◌+◌, ◌-◌, ◌/◌, ◌%◌, ◌^◌, ◌≤◌, ◌<◌, ◌≡◌, refl, ◌∙◌, ap, arith, inl, inr, ltb, leb, leb→le,
  ltb→lt, if◌then◌else◌, Bool-cases, true, false,
}
use code_snippet.Bits.Word.{modulus, half, all_ones, IsWord, bnot, add, shl, sar, band}
use code_snippet.Bits.Digits.{zero-band}
use code_snippet.Bits.Logic.{band-all_ones}
use code_snippet.Bits.Integer.{divpwr2}
use native.Mathlib.Nat.{div-eq-sub-div, div-eq_of_lt, div-le_self, one-le-pow, pow-le-pow_right}

-- The number of a word from `half` on is the word less `modulus`.
abbrev pub signed_div : ℕ → ℕ → ℕ
signed_div x d = if ltb x half then x / d else (modulus - (modulus - x) / d) % modulus

-- The dividend with the bias, where the divisor is `d`.
abbrev biased : ℕ → ℕ → ℕ
biased x d = add x (band (sar x 31) (add d all_ones))

-- y >> n, where 2 to the power of n is `d`.
abbrev shifted : ℕ → ℕ → ℕ
shifted y d = if ltb all_ones (y + half) then bnot (bnot y / d) else y / d

biased-nonneg : (x d : ℕ) → x < half → biased x d ≡ x
biased-nonneg x d l =
    let zero_sign : sar x 31 ≡ 0 = ground (arith, l) in
    let no_bias : band (sar x 31) (add d all_ones) ≡ 0 =
      ap (λ s. band s (add d all_ones)) zero_sign ∙ zero-band (add d all_ones) in
    omega (arith, no_bias, l)

biased-neg :
    (x d : ℕ) → IsWord x → half ≤ x → 0 < d → d ≤ half → biased x d ≡ (x + (d - 1)) % modulus
biased-neg x d w l p q =
    let sign : sar x 31 ≡ all_ones = ground (arith, l, w) in
    let less : add d all_ones ≡ d - 1 = omega (arith, p, q) in
    let bias : band (sar x 31) (add d all_ones) ≡ d - 1 =
      ap (λ s. band s (add d all_ones)) sign
      ∙ ap (band all_ones) less
      ∙ band-all_ones (d - 1) (omega (arith, q)) in
    ap (λ b. (x + b) % modulus) bias

shifted-nonneg : (y d : ℕ) → y < half → shifted y d ≡ y / d
shifted-nonneg y d l = let e : ltb all_ones (y + half) ≡ false = ground (arith, l) in rw e refl

shifted-neg : (y d : ℕ) → half ≤ y → shifted y d ≡ all_ones - (all_ones - y) / d
shifted-neg y d l = let e : ltb all_ones (y + half) ≡ true = ground (arith, l) in rw e refl

shifted-biased :
    (x d : ℕ)
    → IsWord x
    → half ≤ x
    → 0 < d
    → d < half
    → shifted ((x + (d - 1)) % modulus) d ≡ (modulus - (modulus - x) / d) % modulus
shifted-biased x d w l p q = elim (Bool-cases (leb d (modulus - x))) [
  | inl e ↦
      (let y : (x + (d - 1)) % modulus ≡ x + (d - 1) = ground (arith, e, w, p) in
        let step = div-eq-sub-div p (leb→le d (modulus - x) e) in
        let same : all_ones - (x + (d - 1)) ≡ modulus - x - d = omega (arith, w, p) in
        let quotient : (all_ones - (x + (d - 1))) / d ≡ (modulus - x - d) / d =
          ap (λ u. u / d) same in
        ap (λ u. shifted u d) y
        ∙ shifted-neg (x + (d - 1)) d (omega (arith, l))
        ∙ wrapped ((all_ones - (x + (d - 1))) / d) ((modulus - x - d) / d) ((modulus - x) / d)
            quotient step (at_most (modulus - x) d))
  | inr e ↦
      (let y : (x + (d - 1)) % modulus ≡ x + (d - 1) - modulus = ground (arith, e, w, p, q) in
        let small = div-eq_of_lt (under e) in
        let small_y : (x + (d - 1) - modulus) / d ≡ 0 = div-eq_of_lt (omega (arith, w, p)) in
        ap (λ u. shifted u d) y
        ∙ shifted-nonneg (x + (d - 1) - modulus) d (omega (arith, w, q))
        ∙ small_y
        ∙ zero_result ((modulus - x) / d) small)
]
  where
    under : leb d (modulus - x) ≡ false → modulus - x < d
    under e = ground (arith, e)

    at_most : (a c : ℕ) → a / c ≤ a
    at_most a c = div-le_self a c

    wrapped :
        (a b c : ℕ) → a ≡ b → c ≡ b + 1 → c ≤ modulus - x → all_ones - a ≡ (modulus - c) % modulus
    wrapped a b c e f g = omega (arith, e, f, g)

    zero_result : (c : ℕ) → c ≡ 0 → 0 ≡ (modulus - c) % modulus
    zero_result c e = omega (arith, e)

power-below : (n : ℕ) → n < 31 → 2 ^ n < half
power-below n l =
    let bound : 2 ^ n ≤ 2 ^ 30 = pow-le-pow_right (omega arith) {j = 30} (omega (arith, l)) in
    omega (arith, bound)

divpwr2-shifted : (x n : ℕ) → divpwr2 x n ≡ shifted (biased x (shl 1 n)) (2 ^ n)
unfolding divpwr2
divpwr2-shifted x n = refl

-- On a word and up to 30 bits, `divpwr2` is the quotient of the number by the power of 2, rounded to zero.
pub divpwr2_lem : (x n : ℕ) → IsWord x → n < 31 → divpwr2 x n ≡ signed_div x (2 ^ n)
divpwr2_lem x n w l =
    let positive : 0 < 2 ^ n = one-le-pow n 2 (omega arith) in
    let bound = power-below n l in
    let divisor : shl 1 n ≡ 2 ^ n = omega (arith, bound) in
    divpwr2-shifted x n
    ∙ ap (λ d. shifted (biased x d) (2 ^ n)) divisor
    ∙ elim (Bool-cases (ltb x half)) [
      | inl e ↦
          (let below : x < half = ltb→lt x half e in
            ap (λ y. shifted y (2 ^ n)) (biased-nonneg x (2 ^ n) below)
            ∙ shifted-nonneg x (2 ^ n) below
            ∙ rw e refl)
      | inr e ↦
          (let above : half ≤ x = ground (arith, e) in
            ap (λ y. shifted y (2 ^ n))
              (biased-neg x (2 ^ n) w above positive (omega (arith, bound)))
            ∙ shifted-biased x (2 ^ n) w above positive bound
            ∙ rw e refl)
    ]
