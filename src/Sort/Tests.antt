-- ===== src/Sort/Tests.antt =====
-- A small array of numbers, sorted by Algorithm/Sort/sort.h.
use code_snippet.Prelude.{
  ℕ, ◌-◌, ◌≡◌, inl, refl, arith, Option, some, none, ◌==◌, leb, if◌then◌else◌, ℤ, pos, negsuc, List,
  [], ◌∷◌, true, false,
}
use code_snippet.Sort.{
  insertion_sort, sort_loop, insert_sorted_arr, ungarded_insert_sorted_arr, insert_loop,
  right_shift,
}
use code_snippet.Sort.{and_then, not_after}
use code_snippet.Sort.Quick.{quick_sort, sort_part, three_way_partition, partition_loop, median_of3}
use code_snippet.Sort.Heap.{
  build_heap, build_loop, sink, sink_with_ele, sink_loop, greater_chil, take_loop,
}
use code_snippet.Sort.Order.{backwards, count, Descending, IsOrder}
use code_snippet.Sort.Moves.{IsThreeWay}
use code_snippet.Sort.Quick.Recursion.{quick_sort-Ordered}
use code_snippet.Sort.Heap.{heap_sort}
use code_snippet.Sort.Heap.Build.{build_heap_orders}
use code_snippet.Sort.Heap.Taken.{heap_sort-Ordered}
use code_snippet.Sort.Heap.Outside.{heap_sort_takes_outside}
use code_snippet.Sort.Whole.{insertion_sort-Sorted}

-- a2 - a1
abbrev ascending : ℕ → ℕ → ℤ
ascending a1 a2 = if leb a1 a2 then pos (a2 - a1) else negsuc (a1 - a2 - 1)

ascending-IsOrder : IsOrder ascending
ascending-IsOrder = record {
  total = λ a b e. ground (arith, e);
  transitive = λ a b c e f. ground (arith, e, f);
}

ascending-IsThreeWay : IsThreeWay ascending
ascending-IsThreeWay = record { order = ascending-IsOrder; opposite = λ a b e. ground (arith, e) }

abbrev numbers : ℕ → ℕ
numbers i =
    if i == 0 then 3 else if i == 1 then 1 else if i == 2 then 2 else if i == 3 then 3 else 7

abbrev sorted_numbers : Option (ℕ → ℕ) → List ℕ
sorted_numbers none = []
sorted_numbers (some arr) = backwards 5 arr

four_sorted : sorted_numbers (insertion_sort ascending 4 numbers) ≡ 7 ∷ 3 ∷ 3 ∷ 2 ∷ 1 ∷ []
unfolding insertion_sort sort_loop insert_sorted_arr ungarded_insert_sorted_arr insert_loop
    right_shift
four_sorted = refl

five_sorted : sorted_numbers (quick_sort ascending 5 numbers) ≡ 7 ∷ 3 ∷ 3 ∷ 2 ∷ 1 ∷ []
unfolding quick_sort sort_part three_way_partition partition_loop median_of3
five_sorted = refl

heap_of_five :
    sorted_numbers (and_then (build_heap ascending 5 numbers) (take_loop ascending 5))
    ≡ 7 ∷ 3 ∷ 3 ∷ 2 ∷ 1 ∷ []
unfolding build_heap build_loop sink sink_with_ele sink_loop greater_chil take_loop
heap_of_five = refl

insertion_sort-Sorted_example :
    (arr' : ℕ → ℕ) × (insertion_sort ascending 4 numbers ≡ some arr')
    × Descending ascending (backwards 4 arr')
    × (count (λ x. x == 3) (backwards 4 arr') ≡ count (λ x. x == 3) (backwards 4 numbers))
    × (arr' 4 ≡ 7)
insertion_sort-Sorted_example =
    insertion_sort-Sorted ascending 4 numbers (λ x. x == 3) 4 ascending-IsOrder (omega arith)

quick_sort-Ordered_example :
    (arr' : ℕ → ℕ) × (quick_sort ascending 4 numbers ≡ some arr')
    × (not_after ascending (arr' 1) (arr' 2) ≡ true)
    × (count (λ x. x == 3) (backwards 4 arr') ≡ count (λ x. x == 3) (backwards 4 numbers))
    × (arr' 4 ≡ 7)
quick_sort-Ordered_example =
    quick_sort-Ordered ascending 4 numbers (λ x. x == 3) 1 2 4 ascending-IsThreeWay (omega arith)
      (omega arith) (omega arith) (omega arith)

build_heap_orders_example :
    (arr' : ℕ → ℕ) × (build_heap ascending 4 numbers ≡ some arr')
    × (not_after ascending (arr' 3) (arr' 1) ≡ true)
    × (not_after ascending (arr' 2) (arr' 0) ≡ true)
    × (count (λ x. x == 3) (backwards 4 arr') ≡ count (λ x. x == 3) (backwards 4 numbers))
build_heap_orders_example =
    build_heap_orders ascending 4 1 3 2 numbers (λ x. x == 3) ascending-IsThreeWay (omega arith)
      (inl (omega arith)) (omega arith) (omega arith)

heap_sort-Ordered_example :
    (arr' : ℕ → ℕ) × (heap_sort ascending 4 11 numbers ≡ some arr')
    × (not_after ascending (arr' 1) (arr' 2) ≡ true)
    × (count (λ x. x == 3) (backwards 11 arr') ≡ count (λ x. x == 3) (backwards 11 numbers))
heap_sort-Ordered_example =
    heap_sort-Ordered ascending numbers (λ x. x == 3) 1 2 ascending-IsThreeWay (omega arith)
      (omega arith)

-- Of 3, 1 and 2 the last is 7 afterwards, which stands behind them.
heap_sort_takes_outside_example :
    (arr' : ℕ → ℕ) × (heap_sort ascending 4 3 numbers ≡ some arr')
    × (not_after ascending (arr' 2) (numbers 0) ≡ false)
heap_sort_takes_outside_example =
    heap_sort_takes_outside ascending 3 0 4 numbers ascending-IsThreeWay (omega arith) (omega arith)
      (omega arith) (omega arith) refl
