-- ===== src/Sort/Heap.antt =====
-- The heap sort of Algorithm/Sort/sort.h. `none` is a run that is out of fuel, an array of no element, whose
-- last index is one below 0, or a sort of elements that have not the size of an int, of which the heap is built
-- across the elements.
pub mod Chil
pub mod Sink
pub mod Build
pub mod Taken
pub mod Outside
use code_snippet.Prelude.{
  ℕ, zero, suc, ◌+◌, ◌-◌, ◌*◌, ◌/◌, Option, none, some, Bool, true, false, ℤ, if◌then◌else◌, update,
  ltb, ◌==◌,
}
use code_snippet.Sort.{not_after, before, and_then}

abbrev pub left_chil : ℕ → ℕ
left_chil k = 2 * k + 1

abbrev pub parent : ℕ → ℕ
parent k = (k - 1) / 2

unfoldable pub greater_chil {ℓ} : {A : Type ℓ} → (A → A → ℤ) → ℕ → ℕ → (ℕ → A) → ℕ
greater_chil cmp_fn nmemb root arr =
    if ltb (left_chil root) (nmemb - 1)
    then (if before cmp_fn (arr (left_chil root)) (arr (left_chil root + 1))
        then left_chil root + 1
        else left_chil root)
    else left_chil root

unfoldable pub sink_loop {ℓ} : {A : Type ℓ} → (A → A → ℤ) → ℕ → ℕ → A → ℕ → (ℕ → A) → Option (ℕ → A)
sink_loop cmp_fn zero nmemb ele root arr = none
sink_loop cmp_fn (suc fuel) nmemb ele root arr =
    let chil = greater_chil cmp_fn nmemb root arr in
    let rest = sink_loop cmp_fn fuel nmemb ele chil (update arr root (arr chil)) in
    if ltb (left_chil root) nmemb
    then (if not_after cmp_fn ele (arr chil) then rest else some (update arr root ele))
    else some (update arr root ele)

unfoldable pub sink_with_ele {ℓ} : {A : Type ℓ} → (A → A → ℤ) → ℕ → A → ℕ → (ℕ → A) → Option (ℕ → A)
sink_with_ele cmp_fn nmemb ele root arr = sink_loop cmp_fn (nmemb + 1) nmemb ele root arr

unfoldable pub sink {ℓ} : {A : Type ℓ} → (A → A → ℤ) → ℕ → ℕ → (ℕ → A) → Option (ℕ → A)
sink cmp_fn nmemb root arr = sink_with_ele cmp_fn nmemb (arr root) root arr

-- The loop that goes down to k = 0.
unfoldable pub build_loop {ℓ} : {A : Type ℓ} → (A → A → ℤ) → ℕ → ℕ → (ℕ → A) → Option (ℕ → A)
build_loop cmp_fn nmemb zero arr = sink cmp_fn nmemb 0 arr
build_loop cmp_fn nmemb (suc k) arr =
    and_then (sink cmp_fn nmemb (suc k) arr) (build_loop cmp_fn nmemb k)

unfoldable pub build_heap {ℓ} : {A : Type ℓ} → (A → A → ℤ) → ℕ → (ℕ → A) → Option (ℕ → A)
build_heap cmp_fn zero arr = none
build_heap cmp_fn (suc last) arr =
    if suc last == 1 then some arr else build_loop cmp_fn (suc last) (parent last) arr

-- The loop with `suc last` elements to go; its sink is over one element less.
unfoldable pub take_loop {ℓ} : {A : Type ℓ} → (A → A → ℤ) → ℕ → (ℕ → A) → Option (ℕ → A)
take_loop cmp_fn zero arr = some arr
take_loop cmp_fn (suc zero) arr = some arr
take_loop cmp_fn (suc (suc last)) arr =
    and_then (sink_with_ele cmp_fn (suc last) (arr (suc last)) 0 (update arr (suc last) (arr 0)))
      (take_loop cmp_fn (suc last))

-- sizeof(int)
abbrev pub int_size : ℕ
int_size = 4

-- The heap is built of 11 elements of the size of an int, whatever `nmemb` and `size` are. On elements of
-- another size that moves parts of elements, which an array of whole elements cannot hold: `none`.
unfoldable pub heap_sort {ℓ} : {A : Type ℓ} → (A → A → ℤ) → ℕ → ℕ → (ℕ → A) → Option (ℕ → A)
heap_sort cmp_fn size nmemb arr =
    if size == int_size then and_then (build_heap cmp_fn 11 arr) (take_loop cmp_fn nmemb) else none
