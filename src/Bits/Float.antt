-- ===== src/Bits/Float.antt =====
-- The floating-point puzzles of C/CSAPPLab/bits/bits.c, on the bits of single-precision numbers.
use code_snippet.Prelude.{ℕ, zero, suc, ◌+◌, ◌-◌, Option, none, some, ◌==◌, ltb, if◌then◌else◌}
use code_snippet.Bits.Word.{bnot, add, shl, shr, sar, is_neg, band, bor, bxor}

unfoldable pub float_neg : ℕ → ℕ
float_neg uf =
    let tmp = band uf (bnot (shl 1 31)) in if ltb (shl 0xFF 23) tmp then uf else bxor uf (shl 1 31)

-- The loop that shifts the leftmost 1 to bit 31, with the count of shifts; `none` is out of fuel.
unfoldable pub normalize : ℕ → ℕ → ℕ → Option (ℕ × ℕ)
normalize zero abs_x leftshift = none
normalize (suc fuel) abs_x leftshift =
    let rest = normalize fuel (shl abs_x 1) (leftshift + 1) in
    if band abs_x (shl 1 31) == 0 then rest else some (abs_x, leftshift)

-- What follows the loop, from the word that is normalized and the count.
unfoldable pub pack : ℕ → ℕ → ℕ → ℕ
pack sign abs leftshift =
    let abs_x : ℕ = shl abs 1 in
    let round : ℕ =
      if ltb 0x0100 (band abs_x 0x1FF) then 1 else if band abs_x 0x3FF == 0x0300 then 1 else 0 in
    let true_exp = add 32 (bnot leftshift + 1) in
    let bias = shl 1 7 - 1 in add (bor (bor sign (shl (add bias true_exp) 23)) (shr abs_x 9)) round

unfoldable pub float_i2f : ℕ → Option ℕ
float_i2f x =
    let sign = band x (shl 1 31) in
    let abs_x = if is_neg x then add (bnot x) 1 else x in
    let normal = normalize 32 abs_x 1 in
    let packed : Option ℕ = elim normal [ none ↦ none | some p ↦ some (pack sign p.0 p.1) ] in
    if x == 0 then some 0 else packed

unfoldable pub float_twice : ℕ → ℕ
float_twice uf =
    let sign = band uf (shl 1 31) in
    let exp_mask = band (sar (shl 1 31) 8) (bnot (shl 1 31)) in
    let exp = band uf exp_mask in
    if exp == 0 then bor (shl uf 1) sign else if exp == exp_mask then uf else add uf (shl 1 23)
