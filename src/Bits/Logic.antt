-- ===== src/Bits/Logic.antt =====
-- The puzzles of C/CSAPPLab/bits/bits.c that build an operator from others.
use code_snippet.Prelude.{
  ℕ, zero, suc, ◌+◌, ◌-◌, ◌*◌, ◌/◌, ◌≤◌, ◌≡◌, refl, ◌∙◌, ap, arith, inl, inr, ◌==◌, if◌then◌else◌,
  Bool-cases,
}
use code_snippet.Bits.Word.{all_ones, IsWord, bnot, band, bor}
use code_snippet.Bits.Digits.{band-lowest, bor-lowest, zero-band, zero-bor}
use code_snippet.Bits.Integer.{bit_and, conditional}

-- The word of `k` digits 1.
abbrev pub ones : ℕ → ℕ
ones zero = 0
ones (suc k) = ones k * 2 + 1

-- Two words of `k` digits, the negation of their conjunction, and the disjunction of their negations.
and_or :
    (k x y : ℕ)
    → x ≤ ones k
    → y ≤ ones k
    → (bor (ones k - x) (ones k - y) ≡ ones k - band x y) × (band x y ≤ ones k)
and_or zero zero zero p q = (refl, omega arith)
and_or zero (suc x) y p q = absurd (omega (arith, p))
and_or zero zero (suc y) p q = absurd (omega (arith, q))
and_or (suc k) x y p q =
    let h = and_or k (x / 2) (y / 2) (omega (arith, p)) (omega (arith, q)) in
    let a = band-lowest x y in
    let b = bor-lowest (ones k * 2 + 1 - x) (ones k * 2 + 1 - y) in
    let half_x : (ones k * 2 + 1 - x) / 2 ≡ ones k - x / 2 = omega (arith, p) in
    let half_y : (ones k * 2 + 1 - y) / 2 ≡ ones k - y / 2 = omega (arith, q) in
    let halves : bor ((ones k * 2 + 1 - x) / 2) ((ones k * 2 + 1 - y) / 2)
        ≡ bor (ones k - x / 2) (ones k - y / 2) =
      ap (λ u. bor u ((ones k * 2 + 1 - y) / 2)) half_x ∙ ap (bor (ones k - x / 2)) half_y in
    let e = h.0 in let l = h.1 in (omega (arith, a, b, halves, e, l, p, q), omega (arith, a, l))

word_ones : ones 32 ≡ all_ones
word_ones = refl

-- On two words, `bitAnd` is the conjunction of their digits.
pub bit_and_lem : (x y : ℕ) → IsWord x → IsWord y → bit_and x y ≡ band x y
unfolding bit_and
bit_and_lem x y p q =
    let h = and_or 32 x y (omega (arith, p)) (omega (arith, q)) in
    let e : bor (bnot x) (bnot y) ≡ all_ones - band x y = h.0 in
    let l : band x y ≤ all_ones = h.1 in omega (arith, e, l)

and-ones : (k y : ℕ) → y ≤ ones k → band (ones k) y ≡ y
and-ones zero zero p = refl
and-ones zero (suc y) p = absurd (omega (arith, p))
and-ones (suc k) y p =
    let a = band-lowest (ones k * 2 + 1) y in
    let half : (ones k * 2 + 1) / 2 ≡ ones k = omega arith in
    let halves : band ((ones k * 2 + 1) / 2) (y / 2) ≡ band (ones k) (y / 2) =
      ap (λ u. band u (y / 2)) half in
    let h = and-ones k (y / 2) (omega (arith, p)) in omega (arith, a, halves, h)

or-zero : (k y : ℕ) → y ≤ ones k → bor y 0 ≡ y
or-zero zero zero p = refl
or-zero zero (suc y) p = absurd (omega (arith, p))
or-zero (suc k) y p =
    let a = bor-lowest y 0 in let h = or-zero k (y / 2) (omega (arith, p)) in omega (arith, a, h)

pub band-all_ones : (y : ℕ) → IsWord y → band all_ones y ≡ y
band-all_ones y p = and-ones 32 y (omega (arith, p))

-- On words, `conditional` is its third argument if the first is 0, and its second if not.
pub conditional_lem :
    (x y z : ℕ) → IsWord y → IsWord z → conditional x y z ≡ (if x == 0 then z else y)
unfolding conditional
conditional_lem x y z p q = elim (Bool-cases (x == 0)) [
  | inl e ↦ rw e (
      ap (λ u. bor u (band all_ones z)) (zero-band y)
      ∙ zero-bor (band all_ones z)
      ∙ band-all_ones z q)
  | inr e ↦ rw e (
      ap (bor (band all_ones y)) (zero-band z)
      ∙ ap (λ u. bor u 0) (band-all_ones y p)
      ∙ or-zero 32 y (omega (arith, p)))
]
