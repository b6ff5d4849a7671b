-- ===== src/Bits/Signs.antt =====
-- The puzzles on signs and comparison in C/CSAPPLab/bits/bits.c against integer arithmetic.
use code_snippet.Prelude.{
  ℕ, ◌+◌, ◌<◌, ◌≤◌, ◌≡◌, refl, Bool, true, false, ◌==◌, ltb, leb, if◌then◌else◌, arith, ◌∙◌,
  Bool-cases, inl, inr,
}
use code_snippet.Bits.Word.{modulus, half, all_ones, IsWord, bnot, add, sar, lnot, band, bor, bxor}
use code_snippet.Bits.Integer.{sign, add_ok, is_positive, negate, is_less_or_equal}

sar31-nonneg : (x : ℕ) → x < half → sar x 31 ≡ 0
sar31-nonneg x h = ground arith

sar31-neg : (x : ℕ) → IsWord x → half ≤ x → sar x 31 ≡ all_ones
sar31-neg x w h = ground arith

lnot-lnot : (x : ℕ) → lnot (lnot x) ≡ (if x == 0 then 0 else 1)
lnot-lnot x = ground arith

-- The sign of a word, as `!(x >> 31)` and as `x >> 31`.
lnot-sar : (x : ℕ) → IsWord x → lnot (sar x 31) ≡ (if ltb x half then 1 else 0)
lnot-sar x w = ground arith

sar-sign : (x : ℕ) → IsWord x → sar x 31 ≡ (if ltb x half then 0 else all_ones)
sar-sign x w = ground arith

-- On a word, `sign` is 1 for a positive number, 0 for zero and the word of -1 for a negative one.
pub sign_lem :
    (x : ℕ) → IsWord x → sign x ≡ (if x == 0 then 0 else if ltb x half then 1 else all_ones)
unfolding sign
sign_lem x w =
    rw (sar-sign x w, lnot-lnot x)
      (elim (Bool-cases (x == 0)) [
        | inl e ↦
            rw e
              (elim (Bool-cases (ltb x half)) [ inl f ↦ rw f refl | inr f ↦ ground (arith, e, f) ])
        | inr e ↦ rw e (elim (Bool-cases (ltb x half)) [ inl f ↦ rw f refl | inr f ↦ rw f refl ])
      ])

-- On a word, `negate` gives the word whose sum with it is 0.
pub add-negate : (x : ℕ) → IsWord x → add x (negate x) ≡ 0
unfolding negate
add-negate x w = omega arith

-- On a word, `isPositive` is 1 when the number is positive and 0 when it is not.
pub is_positive_lem :
    (x : ℕ) → IsWord x → is_positive x ≡ (if x == 0 then 0 else if ltb x half then 1 else 0)
unfolding is_positive
is_positive_lem x w =
    rw (lnot-sar x w, lnot-lnot x)
      (elim (Bool-cases (x == 0)) [
        | inl e ↦ rw e (elim (Bool-cases (ltb x half)) [ inl f ↦ rw f refl | inr f ↦ rw f refl ])
        | inr e ↦ rw e (elim (Bool-cases (ltb x half)) [ inl f ↦ rw f refl | inr f ↦ rw f refl ])
      ])

-- The sum of the two numbers that the words stand for is one that a word stands for.
abbrev pub fits_sum : ℕ → ℕ → Bool
fits_sum x y =
    if ltb x half
    then (if ltb y half then ltb (x + y) half else true)
    else if ltb y half
    then true
    else leb (half + modulus) (x + y)

abbrev flags : Bool → Bool → Bool → ℕ
flags a b r =
    let p = if a then 1 else 0 in
    let q = if b then 1 else 0 in
    let d = bxor p q in let s = lnot (bxor p (if r then 1 else 0)) in bor d (band (lnot d) s)

flags_lem :
    (a b r : Bool)
    → flags a b r
      ≡ (if a then (if b then (if r then 1 else 0) else 1) else if b then 1 else if r then 0 else 1)
flags_lem true true true = refl
flags_lem true true false = refl
flags_lem true false true = refl
flags_lem true false false = refl
flags_lem false true true = refl
flags_lem false true false = refl
flags_lem false false true = refl
flags_lem false false false = refl

-- On two words, `addOK` is 1 when the sum of the two numbers is one of the numbers of an int, and 0
-- when it is too large or too small.
pub add_ok_lem : (x y : ℕ) → IsWord x → IsWord y → add_ok x y ≡ (if fits_sum x y then 1 else 0)
unfolding add_ok
add_ok_lem x y wx wy =
    rw (lnot-sar x wx, lnot-sar y wy, lnot-sar (add x y) (omega arith))
      (flags_lem (ltb x half) (ltb y half) (ltb (add x y) half) ∙ ground arith)

-- The order of the numbers that two words stand for.
abbrev pub signed_le : ℕ → ℕ → Bool
signed_le x y =
    if ltb x half
    then (if ltb y half then leb x y else false)
    else if ltb y half
    then true
    else leb x y

abbrev le_flags : Bool → Bool → Bool → ℕ
le_flags a b r =
    let p = lnot (if a then 1 else 0) in
    let q = lnot (if b then 1 else 0) in
    let d = bxor p q in bor (band d p) (band (lnot d) (if r then 0 else all_ones))

le_flags_lem :
    (a b r : Bool)
    → le_flags a b r
      ≡ (if a then (if b then (if r then 0 else 1) else 0) else if b then 1 else if r then 0 else 1)
le_flags_lem true true true = refl
le_flags_lem true true false = refl
le_flags_lem true false true = refl
le_flags_lem true false false = refl
le_flags_lem false true true = refl
le_flags_lem false true false = refl
le_flags_lem false false true = refl
le_flags_lem false false false = refl

-- On two words, `isLessOrEqual` is 1 when the first number is at most the second and 0 otherwise.
pub is_less_or_equal_lem :
    (x y : ℕ) → IsWord x → IsWord y → is_less_or_equal x y ≡ (if signed_le x y then 1 else 0)
unfolding is_less_or_equal
is_less_or_equal_lem x y wx wy =
    rw (lnot-sar x wx, lnot-sar y wy, sar-sign (add x (bnot y)) (omega arith))
      (le_flags_lem (ltb x half) (ltb y half) (ltb (add x (bnot y)) half) ∙ ground arith)
