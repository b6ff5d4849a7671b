-- ===== src/Sort/Intro.antt =====
-- The introspective sort of Algorithm/Sort/sort.h, on elements of `size` bytes: quick sort down to parts of 16
-- elements, heap sort below a depth, then an insertion sort of the whole.
pub mod Whole
use code_snippet.Prelude.{
  ℕ, zero, suc, ◌+◌, ◌-◌, ◌*◌, ◌/◌, Option, none, some, Bool, true, false, ℤ, if◌then◌else◌, update,
  leb, ltb, ◌==◌,
}
use code_snippet.Sort.{and_then, ungarded_insert_sorted_arr, insertion_sort}
use code_snippet.Sort.Quick.{three_way_partition, sort_outer}
use code_snippet.Sort.Heap.{heap_sort}

abbrev pub intro_len_threshold : ℕ
intro_len_threshold = 16

-- The loop of _lg, with fuel for each halving.
unfoldable pub lg_loop : ℕ → ℕ → ℕ → ℕ
lg_loop zero n k = k
lg_loop (suc fuel) n k = let more = lg_loop fuel (n / 2) (k + 1) in if ltb 1 n then more else k

unfoldable pub lg : ℕ → ℕ
lg n = lg_loop n n 0

-- An array from the element `lo` on, and the whole array after a change of that part.
abbrev pub from_element {ℓ} : {A : Type ℓ} → ℕ → (ℕ → A) → ℕ → A
from_element lo arr j = arr (lo + j)

abbrev pub with_part {ℓ} : {A : Type ℓ} → ℕ → (ℕ → A) → (ℕ → A) → ℕ → A
with_part lo arr part j = if leb lo j then part (j - lo) else arr j

-- The recursion is on the depth that is left.
unfoldable pub intro_part {ℓ} :
    {A : Type ℓ} → (A → A → ℤ) → ℕ → ℕ → (ℕ → A) → ℕ → ℕ → Option (ℕ → A)
intro_part cmp_fn size zero arr lo hi = elim (leb (hi + 1 - lo) intro_len_threshold) [
  | true ↦ some arr
  | false ↦
      and_then (heap_sort cmp_fn size (hi + 1 - lo) (from_element lo arr))
        (λ part. some (with_part lo arr part))
]
intro_part cmp_fn size (suc recur_depth) arr lo hi = elim (leb (hi + 1 - lo) intro_len_threshold) [
  | true ↦ some arr
  | false ↦
      and_then (three_way_partition cmp_fn arr lo hi)
        (sort_outer (intro_part cmp_fn size recur_depth) lo hi)
]

-- The insertions from the element `suc last` on, for `rounds` elements.
unfoldable pub ungarded_loop {ℓ} : {A : Type ℓ} → (A → A → ℤ) → ℕ → ℕ → (ℕ → A) → Option (ℕ → A)
ungarded_loop cmp_fn zero last arr = some arr
ungarded_loop cmp_fn (suc rounds) last arr =
    and_then (ungarded_insert_sorted_arr cmp_fn last arr) (ungarded_loop cmp_fn rounds (suc last))

unfoldable pub intro_insert_sort {ℓ} : {A : Type ℓ} → (A → A → ℤ) → ℕ → (ℕ → A) → Option (ℕ → A)
intro_insert_sort cmp_fn nmemb arr =
    if ltb intro_len_threshold nmemb
    then and_then (insertion_sort cmp_fn intro_len_threshold arr)
        (ungarded_loop cmp_fn (nmemb - intro_len_threshold) (intro_len_threshold - 1))
    else insertion_sort cmp_fn nmemb arr

unfoldable pub intro_sort {ℓ} : {A : Type ℓ} → (A → A → ℤ) → ℕ → ℕ → (ℕ → A) → Option (ℕ → A)
intro_sort cmp_fn size zero arr = intro_insert_sort cmp_fn zero arr
intro_sort cmp_fn size (suc last) arr =
    if suc last == 1
    then some arr
    else and_then (intro_part cmp_fn size (lg (suc last) * 2) arr 0 last)
        (intro_insert_sort cmp_fn (suc last))
