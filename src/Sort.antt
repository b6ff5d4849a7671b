-- ===== src/Sort.antt =====
-- The sorts of Algorithm/Sort/sort.h: the comparison, and the insertion sort. An array is a function of the index, and moving the bytes of
-- an element moves the element. `none` is a failed assertion or a step before the array.
pub mod Insertion
pub mod Whole
pub mod Order
pub mod Moves
pub mod Quick
pub mod Heap
pub mod Intro
mod Tests
use code_snippet.Prelude.{
  ℕ, zero, suc, ◌+◌, ◌-◌, Option, none, some, Bool, true, false, ℤ, pos, negsuc, if◌then◌else◌,
  update,
}

-- cmp_fn(a1, a2) >= 0, which says that a1 is not after a2
abbrev pub not_after {ℓ} : {A : Type ℓ} → (A → A → ℤ) → A → A → Bool
not_after cmp_fn a1 a2 = elim (cmp_fn a1 a2) [ pos n ↦ true | negsuc n ↦ false ]

-- cmp_fn(a1, a2) > 0, which says that a1 is before a2
abbrev pub before {ℓ} : {A : Type ℓ} → (A → A → ℤ) → A → A → Bool
before cmp_fn a1 a2 = elim (cmp_fn a1 a2) [
  | pos zero ↦ false
  | pos (suc n) ↦ true
  | negsuc n ↦ false
]

-- What comes after a step that may have failed.
abbrev pub and_then {ℓ κ} : {A : Type ℓ} {B : Type κ} → Option A → (A → Option B) → Option B
and_then none next = none
and_then (some a) next = next a

unfoldable pub right_shift {ℓ} : {A : Type ℓ} → ℕ → (ℕ → A) → ℕ → A
right_shift zero arr = arr
right_shift (suc n) arr = right_shift n (update arr (suc n) (arr n))

-- The loop with `iter` at an index of the array.
unfoldable pub insert_loop {ℓ} : {A : Type ℓ} → (A → A → ℤ) → ℕ → A → (ℕ → A) → Option (ℕ → A)
insert_loop cmp_fn zero ins_ele arr =
    if not_after cmp_fn (arr 0) ins_ele then some (update arr 1 ins_ele) else none
insert_loop cmp_fn (suc iter) ins_ele arr =
    let rest = insert_loop cmp_fn iter ins_ele (update arr (suc (suc iter)) (arr (suc iter))) in
    if not_after cmp_fn (arr (suc iter)) ins_ele
    then some (update arr (suc (suc iter)) ins_ele)
    else rest

-- Insertion of the element at `suc last` into the sorted elements up to `last`.
unfoldable pub ungarded_insert_sorted_arr {ℓ} :
    {A : Type ℓ} → (A → A → ℤ) → ℕ → (ℕ → A) → Option (ℕ → A)
ungarded_insert_sorted_arr cmp_fn last arr =
    let done = insert_loop cmp_fn last (arr (suc last)) arr in
    if not_after cmp_fn (arr 0) (arr (suc last)) then done else none

unfoldable pub insert_sorted_arr {ℓ} : {A : Type ℓ} → (A → A → ℤ) → ℕ → (ℕ → A) → Option (ℕ → A)
insert_sorted_arr cmp_fn last arr =
    if not_after cmp_fn (arr 0) (arr (suc last))
    then ungarded_insert_sorted_arr cmp_fn last arr
    else some (update (right_shift (suc last) arr) 0 (arr (suc last)))

-- The loop with `rounds` elements to go from `suc last` on.
unfoldable pub sort_loop {ℓ} : {A : Type ℓ} → (A → A → ℤ) → ℕ → ℕ → (ℕ → A) → Option (ℕ → A)
sort_loop cmp_fn zero last arr = some arr
sort_loop cmp_fn (suc rounds) last arr = elim (insert_sorted_arr cmp_fn last arr) [
  | none ↦ none
  | some arr' ↦ sort_loop cmp_fn rounds (suc last) arr'
]

unfoldable pub insertion_sort {ℓ} : {A : Type ℓ} → (A → A → ℤ) → ℕ → (ℕ → A) → Option (ℕ → A)
insertion_sort cmp_fn nmemb arr = sort_loop cmp_fn (nmemb - 1) 0 arr
