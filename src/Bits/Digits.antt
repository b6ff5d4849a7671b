-- ===== src/Bits/Digits.antt =====
-- The operators &, | and ^ of C on words, digit by digit from the lowest one.
use Prim.Native.Nat.{
  min, max, digits, bitwise, differ, bit_and-bitwise, bit_or-bitwise, bit_xor-bitwise,
}
use code_snippet.Prelude.{ℕ, zero, suc, ◌+◌, ◌*◌, ◌/◌, ◌%◌, ◌≤◌, ◌≡◌, refl, ◌∙◌, sym, ap, arith}
use code_snippet.Bits.Word.{band, bor, bxor}

module _ (rest : ℕ → ℕ) (digit : ℕ → ℕ → ℕ) where
  any_count : (n m a b : ℕ) → a ≤ n → a ≤ m → digits rest digit n a b ≡ digits rest digit m a b
  any_count zero zero a b p q = refl
  any_count zero (suc m) zero b p q = refl
  any_count zero (suc m) (suc a) b p q = absurd (omega (arith, p))
  any_count (suc n) zero zero b p q = refl
  any_count (suc n) zero (suc a) b p q = absurd (omega (arith, q))
  any_count (suc n) (suc m) zero b p q = refl
  any_count (suc n) (suc m) (suc a) b p q =
      ap (λ d. d * 2 + digit (suc a % 2) (b % 2))
        (any_count n m (suc a / 2) (b / 2) (omega (arith, p)) (omega (arith, q)))

  lowest :
      ((b : ℕ) → rest b ≡ rest (b / 2) * 2 + digit 0 (b % 2))
      → (a b : ℕ)
      → bitwise rest digit a b ≡ bitwise rest digit (a / 2) (b / 2) * 2 + digit (a % 2) (b % 2)
  lowest law zero b = law b
  lowest law (suc a) b =
      ap (λ d. d * 2 + digit (suc a % 2) (b % 2))
        (any_count a (suc a / 2) (suc a / 2) (b / 2) (omega arith) (omega arith))

pub band-lowest : (a b : ℕ) → band a b ≡ band (a / 2) (b / 2) * 2 + min (a % 2) (b % 2)
band-lowest a b =
    (λ i. bit_and-bitwise a b i)
    ∙ lowest (λ c. 0) min (λ c. omega arith) a b
    ∙ ap (λ d. d * 2 + min (a % 2) (b % 2)) (sym (λ i. bit_and-bitwise (a / 2) (b / 2) i))

pub bor-lowest : (a b : ℕ) → bor a b ≡ bor (a / 2) (b / 2) * 2 + max (a % 2) (b % 2)
bor-lowest a b =
    (λ i. bit_or-bitwise a b i)
    ∙ lowest (λ c. c) max (λ c. omega arith) a b
    ∙ ap (λ d. d * 2 + max (a % 2) (b % 2)) (sym (λ i. bit_or-bitwise (a / 2) (b / 2) i))

pub bxor-lowest : (a b : ℕ) → bxor a b ≡ bxor (a / 2) (b / 2) * 2 + differ (a % 2) (b % 2)
bxor-lowest a b =
    (λ i. bit_xor-bitwise a b i)
    ∙ lowest (λ c. c) differ (λ c. omega arith) a b
    ∙ ap (λ d. d * 2 + differ (a % 2) (b % 2)) (sym (λ i. bit_xor-bitwise (a / 2) (b / 2) i))

pub zero-band : (b : ℕ) → band 0 b ≡ 0
zero-band b = λ i. bit_and-bitwise 0 b i

pub zero-bor : (b : ℕ) → bor 0 b ≡ b
zero-bor b = λ i. bit_or-bitwise 0 b i
