-- ===== src/Sort/Heap/Outside.antt =====
-- The heap of 11 elements in the heap sort of Algorithm/Sort/sort.h, and an array of fewer.
use code_snippet.Prelude.{
  ℕ, zero, suc, ◌-◌, ◌≤◌, ◌<◌, ◌≡◌, ◌∙◌, sym, ap, arith, some, Bool, true, false, ℤ, inl, inr,
  Bool-cases, update,
}
use code_snippet.Sort.{not_after}
use code_snippet.Sort.Order.{count-full, full-count}
use code_snippet.Sort.Moves.{Moved, IsThreeWay}
use code_snippet.Sort.Heap.{sink_with_ele, build_heap, heap_sort, int_size}
use code_snippet.Sort.Heap.Chil.{HeapFrom, Sunk}
use code_snippet.Sort.Heap.Build.{build_heap-Sunk, heap-greatest}
use code_snippet.Sort.Heap.Taken.{
  whole-Taking, round-Sunk, end-same, take_loop-goes, take_loop-Ordered, heap_sort-goes,
}

differ : {b : Bool} → b ≡ true → ¬ (b ≡ false)
differ {b} p q = ground (arith, p, q)

module _ {A : Type 0} (cmp_fn : A → A → ℤ) where
  -- A test of all elements after a move holds of all before it.
  unmoved :
      (p : A → Bool) (last j : ℕ) (arr arr' : ℕ → A)
      → Moved 0 last arr arr'
      → ((i : ℕ) → i ≤ last → p (arr' i) ≡ true)
      → j ≤ last
      → p (arr j) ≡ true
  unmoved p last j arr arr' m h l =
      full-count p (suc last) j arr
        (sym (m.counted p (suc last) (omega arith))
          ∙ count-full p (suc last) arr' (λ i k. h i (omega (arith, k))))
        (omega (arith, l))

  fewer-HeapFrom :
      (n m : ℕ) (arr : ℕ → A) → n ≤ m → HeapFrom cmp_fn 0 m arr → HeapFrom cmp_fn 0 n arr
  unfolding HeapFrom
  fewer-HeapFrom n m arr l h i c a u k = h i c a u (omega (arith, k, l))

  root-first :
      (j : ℕ) (arr : ℕ → A)
      → IsThreeWay cmp_fn
      → j < 11
      → (h : Sunk cmp_fn 0 10 arr (build_heap cmp_fn 11 arr))
      → not_after cmp_fn (arr j) (h.result 0) ≡ true
  root-first j arr o l h =
      unmoved (λ x. not_after cmp_fn x (h.result 0)) 10 j arr h.result h.moved
        (λ i k. heap-greatest cmp_fn 11 i h.result o h.heap (omega (arith, k))) (omega (arith, l))

  not_before_root :
      (i j : ℕ) (arr : ℕ → A)
      → IsThreeWay cmp_fn
      → j < 11
      → not_after cmp_fn (arr j) (arr i) ≡ false
      → (h : Sunk cmp_fn 0 10 arr (build_heap cmp_fn 11 arr))
      → not_after cmp_fn (h.result 0) (arr i) ≡ false
  not_before_root i j arr o l e h = elim (Bool-cases (not_after cmp_fn (h.result 0) (arr i))) [
    | inl f ↦
        absurd
          (differ (o.order.transitive (arr j) (h.result 0) (arr i) (root-first j arr o l h) f) e)
    | inr f ↦ f
  ]

  -- With a total and transitive cmp_fn that is not negative on (b, a) where it is not positive on (a,
  -- b), and `n` elements of the size of an int, 2 at least, let the element `j` of the memory lie past them and before the
  -- element 11, and be after their element `i`. The sort then ends with the last of the `n` elements
  -- after what was their element `i`.
  pub heap_sort_takes_outside :
      (n i j : ℕ) (arr : ℕ → A)
      → IsThreeWay cmp_fn
      → 1 < n
      → i < n
      → n ≤ j
      → j < 11
      → not_after cmp_fn (arr j) (arr i) ≡ false
      → (arr' : ℕ → A) × (heap_sort cmp_fn int_size n arr ≡ some arr')
        × (not_after cmp_fn (arr' (n - 1)) (arr i) ≡ false)
  heap_sort_takes_outside zero i j arr o l a b c e = absurd (omega (arith, l))
  heap_sort_takes_outside (suc zero) i j arr o l a b c e = absurd (omega (arith, l))
  heap_sort_takes_outside (suc (suc m)) i j arr o l a b c e =
      let h = build_heap-Sunk cmp_fn 10 arr o in
      let s =
        whole-Taking cmp_fn (suc m) h.result
          (fewer-HeapFrom (suc (suc m)) 11 h.result (omega (arith, b, c)) h.heap) in
      let first = round-Sunk cmp_fn o m (suc m) h.result (omega arith) s in
      let rest =
        take_loop-Ordered cmp_fn m m first.result o (omega arith)
          (whole-Taking cmp_fn m first.result first.heap) in
      let top : rest.result (suc m) ≡ h.result 0 =
        rest.moved.above (suc m) (omega arith)
        ∙ end-same cmp_fn o m (suc m) h.result (omega arith) s
            (sink_with_ele cmp_fn (suc m) (h.result (suc m)) 0
              (update h.result (suc m) (h.result 0)))
            first in
      let last : suc (suc m) - 1 ≡ suc m = omega arith in
      (
        rest.result,
        heap_sort-goes cmp_fn (suc (suc m)) arr h.result h.ran
            ∙ take_loop-goes cmp_fn m h.result first.result first.ran
            ∙ rest.ran,
        ap (λ k. not_after cmp_fn (rest.result k) (arr i)) last
            ∙ ap (λ x. not_after cmp_fn x (arr i)) top
            ∙ not_before_root i j arr o c e h,
      )
