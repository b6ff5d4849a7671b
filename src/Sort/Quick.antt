-- ===== src/Sort/Quick.antt =====
-- The quick sort of Algorithm/Sort/sort.h: the median of three, the three-way partition and the recursion
-- on the two outer parts. `none` is a run that is out of fuel, or an array of no element, whose last index
-- is one below 0.

pub mod Sides
pub mod Partition
pub mod Recursion
use code_snippet.Prelude.{
  ℕ, zero, suc, ◌+◌, ◌-◌, ◌/◌, Option, none, some, Bool, true, false, ℤ, pos, negsuc, if◌then◌else◌,
  update, leb, ltb,
}
use code_snippet.Sort.{not_after, before, and_then}

-- cmp_fn(a1, a2) <= 0
abbrev pub not_before {ℓ} : {A : Type ℓ} → (A → A → ℤ) → A → A → Bool
not_before cmp_fn a1 a2 = if before cmp_fn a1 a2 then false else true

unfoldable pub median_of3 {ℓ} : {A : Type ℓ} → (A → A → ℤ) → (ℕ → A) → ℕ → ℕ → ℕ → ℕ
median_of3 cmp_fn arr lo mid hi =
    if not_after cmp_fn (arr lo) (arr mid)
    then (if not_after cmp_fn (arr mid) (arr hi)
        then mid
        else (if not_after cmp_fn (arr lo) (arr hi) then hi else lo))
    else (if not_before cmp_fn (arr mid) (arr hi)
        then mid
        else (if not_after cmp_fn (arr lo) (arr hi) then lo else hi))

abbrev pub swap_ele {ℓ} : {A : Type ℓ} → (ℕ → A) → ℕ → ℕ → ℕ → A
swap_ele arr e1 e2 = update (update arr e1 (arr e2)) e2 (arr e1)

-- The array, and where the elements equal to the pivot begin and end.
pub record Parts {ℓ} (A : Type ℓ) : Type ℓ where
  pub array : ℕ → A
  pub less : ℕ
  pub greater : ℕ

unfoldable pub partition_loop {ℓ} :
    {A : Type ℓ} → (A → A → ℤ) → ℕ → (ℕ → A) → ℕ → ℕ → ℕ → Option (Parts A)
partition_loop cmp_fn zero arr lt eq gt = none
partition_loop cmp_fn (suc fuel) arr lt eq gt = elim (leb eq gt) [
  | false ↦ some (record { array = arr; less = lt; greater = gt })
  | true ↦ elim (cmp_fn (arr eq) (arr lt)) [
    | pos zero ↦ partition_loop cmp_fn fuel arr lt (eq + 1) gt
    | negsuc n ↦ partition_loop cmp_fn fuel (swap_ele arr eq gt) lt eq (gt - 1)
    | pos (suc n) ↦ partition_loop cmp_fn fuel (swap_ele arr lt eq) (lt + 1) (eq + 1) gt
  ]
]

unfoldable pub three_way_partition {ℓ} :
    {A : Type ℓ} → (A → A → ℤ) → (ℕ → A) → ℕ → ℕ → Option (Parts A)
three_way_partition cmp_fn arr lo hi =
    let pivot = median_of3 cmp_fn arr lo (lo + (hi - lo) / 2) hi in
    partition_loop cmp_fn (hi - lo + 1) (swap_ele arr pivot lo) lo (lo + 1) hi

-- The two recursive calls, on the elements before and after those equal to the pivot.
abbrev pub sort_outer {ℓ} :
    {A : Type ℓ} → ((ℕ → A) → ℕ → ℕ → Option (ℕ → A)) → ℕ → ℕ → Parts A → Option (ℕ → A)
sort_outer sort lo hi parts =
    and_then (if ltb 0 parts.less then sort parts.array lo (parts.less - 1) else some parts.array)
      (λ arr. sort arr (parts.greater + 1) hi)

unfoldable pub sort_part {ℓ} : {A : Type ℓ} → (A → A → ℤ) → ℕ → (ℕ → A) → ℕ → ℕ → Option (ℕ → A)
sort_part cmp_fn zero arr lo hi = none
sort_part cmp_fn (suc fuel) arr lo hi = elim (leb hi lo) [
  | true ↦ some arr
  | false ↦
      and_then (three_way_partition cmp_fn arr lo hi) (sort_outer (sort_part cmp_fn fuel) lo hi)
]

unfoldable pub quick_sort {ℓ} : {A : Type ℓ} → (A → A → ℤ) → ℕ → (ℕ → A) → Option (ℕ → A)
quick_sort cmp_fn zero arr = none
quick_sort cmp_fn (suc last) arr = sort_part cmp_fn (suc last) arr 0 last
