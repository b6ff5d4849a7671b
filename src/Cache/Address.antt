-- ===== src/Cache/Address.antt =====
-- The parts of an address in C/CSAPPLab/cache/csim.c.
use code_snippet.Prelude.{ℕ, zero, suc, ◌+◌, ◌-◌, ◌*◌, ◌/◌, ◌%◌, ◌^◌, ◌<◌, ◌≡◌, ◌∙◌, sym, arith, ap}
use mathlib.Core.Path.{subst}
use native.Mathlib.Nat.{
  mod-lt, one-le-pow, pow-succ', mul_assoc, one-mul, mod-add-div', add-mul-mod_self_right,
  div-lt_iff_lt-mul,
}
use code_snippet.Cache.{CacheArgs, bits_tag, extract_set_bits, extract_tag_bits}

exponent : {a b : ℕ} → a ≡ b → 2 ^ a ≡ 2 ^ b
exponent e = ap (λ k. 2 ^ k) e

two-add : (a b : ℕ) → 2 ^ (a + b) ≡ 2 ^ a * 2 ^ b
two-add zero b = exponent (omega arith) ∙ sym (one-mul (2 ^ b))
two-add (suc a) b =
    exponent (omega arith)
    ∙ pow-succ' 2 (a + b)
    ∙ ap (λ x. 2 * x) (two-add a b)
    ∙ sym (mul_assoc 2 (2 ^ a) (2 ^ b))
    ∙ ap (λ x. x * 2 ^ b) (sym (pow-succ' 2 a))

-- The set bits of an address are an index of the array.
pub set-bound :
    (args : CacheArgs) (addr : ℕ)
    → args.bits_sets + args.bits_blocks_per_line < 64
    → extract_set_bits args addr < 2 ^ args.bits_sets
unfolding extract_set_bits
set-bound args addr l =
    (div-lt_iff_lt-mul (one-le-pow args.bits_blocks_per_line 2 (omega arith))).1 (
      subst (λ x. addr % 2 ^ (64 - bits_tag args) < x)
        (two-add args.bits_sets args.bits_blocks_per_line)
        (subst (λ k. addr % 2 ^ k < 2 ^ (args.bits_sets + args.bits_blocks_per_line))
          (omega (arith, l))
          (mod-lt addr (one-le-pow (args.bits_sets + args.bits_blocks_per_line) 2 (omega arith)))))

-- The quotient by a product, the digit below it and the remainder.
digits : (a m k b : ℕ) → m ≡ k * b → (a / m * k + a % m / b) * b + a % b ≡ a
digits a m k b e =
    let r = a % m in
    let x = a / m * k in
    let whole : r + x * b ≡ a =
      ap (λ z. r + z) (mul_assoc (a / m) k b ∙ ap (λ z. a / m * z) (sym e)) ∙ mod-add-div' a m in
    let low : a % b ≡ r % b = ap (λ z. z % b) (sym whole) ∙ add-mul-mod_self_right r x b in
    join x (r / b) (a % b) r (ap (λ z. z + r / b * b) low ∙ mod-add-div' r b) whole
  where
    join : (x y z r : ℕ) → z + y * b ≡ r → r + x * b ≡ a → (x + y) * b + z ≡ a
    join x y z r p q = grind (arith, p, q)

-- The tag, the set and the block offset of an address are its parts: no bit is lost and none is shared.
pub extract-addr :
    (args : CacheArgs) (addr : ℕ)
    → args.bits_sets + args.bits_blocks_per_line < 64
    → (extract_tag_bits args addr * 2 ^ args.bits_sets + extract_set_bits args addr)
          * 2 ^ args.bits_blocks_per_line
        + addr % 2 ^ args.bits_blocks_per_line
      ≡ addr
unfolding extract_set_bits extract_tag_bits
extract-addr args addr l =
    digits addr (2 ^ (64 - bits_tag args)) (2 ^ args.bits_sets) (2 ^ args.bits_blocks_per_line)
      (exponent (omega (arith, l)) ∙ two-add args.bits_sets args.bits_blocks_per_line)
