-- ===== src/Miniproc/Memory.antt =====
-- Word arithmetic and `memcpy` of OS/WeensyOS/MiniprocOS/lib.c.
use code_snippet.Prelude.{
  ℕ, zero, suc, ◌+◌, ◌-◌, ◌%◌, ◌^◌, ◌≤◌, ◌<◌, ◌≡◌, refl, Bool, ltb, leb, ◌==◌, ◌||◌, ◌&&◌, arith,
  update, ◌⊎◌, inl, ◌∙◌,
}

-- `uint32_t` arithmetic wraps.
abbrev pub u32 : ℕ → ℕ
u32 n = n % 2 ^ 32

abbrev pub sub32 : ℕ → ℕ → ℕ
sub32 a b = u32 (a + 2 ^ 32 - b)

-- `w <= 0` and `n <= w` where `w` is the bit pattern of an `int32_t`.
abbrev pub int_le_zero : ℕ → Bool
int_le_zero w = w == 0 || leb (2 ^ 31) w

abbrev pub int_ge : ℕ → ℕ → Bool
int_ge w n = ltb w (2 ^ 31) && leb n w

-- while (n-- > 0) *d++ = *s++;
unfoldable pub memcpy : ℕ → ℕ → ℕ → (ℕ → ℕ) → ℕ → ℕ
memcpy dst src zero mem = mem
memcpy dst src (suc n) mem = memcpy (dst + 1) (src + 1) n (update mem dst (mem src))

-- Bytes outside the destination stay.
pub memcpy_frame :
    (dst src n : ℕ) (mem : ℕ → ℕ) (a : ℕ)
    → (a < dst) ⊎ (dst + n ≤ a)
    → memcpy dst src n mem a ≡ mem a
unfolding memcpy
memcpy_frame dst src zero mem a h = refl
memcpy_frame dst src (suc n) mem a h =
    ground (arith, memcpy_frame (dst + 1) (src + 1) n (update mem dst (mem src)) a)

-- Where the two ranges are apart, byte `j` of the destination is byte `j` of the source.
pub memcpy_copies :
    (dst src n : ℕ) (mem : ℕ → ℕ) (j : ℕ)
    → (dst + n ≤ src) ⊎ (src + n ≤ dst)
    → j < n
    → memcpy dst src n mem (dst + j) ≡ mem (src + j)
unfolding memcpy
memcpy_copies dst src zero mem j h l = absurd (omega arith)
memcpy_copies dst src (suc n) mem zero h l =
    memcpy_frame (dst + 1) (src + 1) n (update mem dst (mem src)) (dst + 0) (inl (omega arith))
    ∙ ground arith
memcpy_copies dst src (suc n) mem (suc j) h l =
    let e : dst + suc j ≡ dst + 1 + j = omega arith in
    rw e (
      memcpy_copies (dst + 1) (src + 1) n (update mem dst (mem src)) j (omega arith) (omega arith)
      ∙ ground arith)
