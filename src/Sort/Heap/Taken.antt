-- ===== src/Sort/Heap/Taken.antt =====
-- The heap of Algorithm/Sort/sort.h is taken down from its root.
use code_snippet.Prelude.{
  ℕ, zero, suc, ◌+◌, ◌≤◌, ◌<◌, ◌≡◌, refl, ◌∙◌, ap, arith, Option, some, Bool, true, ℤ, inl, inr,
  ◌≢◌, ◌==◌, Bool-cases, update,
}
use code_snippet.Sort.{not_after}
use code_snippet.Sort.Order.{backwards, count}
use code_snippet.Sort.Moves.{
  Moved, Moved-refl, Moved-trans, Moved-swap, Moved-wider, IsThreeWay, Ordered, ==→≡,
}
use code_snippet.Sort.Heap.{sink_with_ele, take_loop, build_heap, heap_sort, int_size}
use code_snippet.Sort.Heap.Chil.{HeapFrom, Sinking, Sunk, chil-above}
use code_snippet.Sort.Heap.Sink.{sink_loop-Sunk}
use code_snippet.Sort.Heap.Build.{build_heap-Sunk, heap-greatest}

module _ {A : Type 0} (cmp_fn : A → A → ℤ) where
  -- The first `n` elements are a heap; those above them are in order and not before any of the first.
  pub record Taking (n last : ℕ) (arr : ℕ → A) : Type 0 where
    pub heap : HeapFrom cmp_fn 0 n arr
    pub across : (i j : ℕ) → i < n → n ≤ j → j ≤ last → not_after cmp_fn (arr i) (arr j) ≡ true
    pub ordered : (i j : ℕ) → n ≤ i → i < j → j ≤ last → not_after cmp_fn (arr i) (arr j) ≡ true

  -- One round: the root goes to the end, and the element of the end sinks from the root.
  module _ (o : IsThreeWay cmp_fn) (m last : ℕ) (arr : ℕ → A) (inside : suc m ≤ last)
      (s : Taking (suc (suc m)) last arr) where
    abbrev pub exchanged : ℕ → A
    exchanged = update (update arr (suc m) (arr 0)) 0 (arr (suc m))

    at_end : exchanged (suc m) ≡ arr 0
    at_end = ground arith

    at_start : exchanged 0 ≡ arr (suc m)
    at_start = ground arith

    elsewhere : (j : ℕ) → j ≢ 0 → j ≢ suc m → exchanged j ≡ arr j
    elsewhere j u v = ground (arith, u, v)

    exchanged-Moved : Moved 0 last arr exchanged
    exchanged-Moved =
        Moved-swap 0 last 0 (suc m) arr exchanged (omega arith) (omega arith) (omega arith) inside
          at_start at_end (λ k u v. elsewhere k u v)

    exchanged-Sinking : Sinking cmp_fn 0 (suc m) 0 exchanged
    unfolding HeapFrom
    exchanged-Sinking = record {
      edges = λ i c a u h l.
          let above = chil-above i c h in
          ap (λ x. not_after cmp_fn x (exchanged i))
            (elsewhere c (λ e. absurd (omega (arith, e, above)))
              (λ e. absurd (omega (arith, e, l))))
          ∙ ap (λ x. not_after cmp_fn (arr c) x)
              (elsewhere i u (λ e. absurd (omega (arith, e, above, l))))
          ∙ s.heap i c (omega arith) h (omega (arith, l));
      bridged = λ i c a h t l. absurd (omega (arith, chil-above i 0 h));
    }

    pub round-Sunk :
        Sunk cmp_fn 0 m exchanged
          (sink_with_ele cmp_fn (suc m) (arr (suc m)) 0 (update arr (suc m) (arr 0)))
    unfolding sink_with_ele
    round-Sunk =
        sink_loop-Sunk cmp_fn (suc m + 1) 0 m 0 (arr (suc m)) (update arr (suc m) (arr 0)) o
          (omega arith) (omega arith) (omega arith) exchanged-Sinking

    -- The root is not before any element of the heap, and no element of the heap is after one above.
    small : (i j : ℕ) → i ≤ m → suc m < j → j ≤ last → not_after cmp_fn (exchanged i) (arr j) ≡ true
    small i j a b c = elim (Bool-cases (i == 0)) [
      | inl e ↦
          ap (λ k. not_after cmp_fn (exchanged k) (arr j)) (==→≡ i 0 e)
          ∙ ap (λ x. not_after cmp_fn x (arr j)) at_start
          ∙ s.across (suc m) j (omega arith) b c
      | inr e ↦
          ap (λ x. not_after cmp_fn x (arr j))
            (elsewhere i (ground (arith, e)) (λ t. absurd (omega (arith, t, a))))
          ∙ s.across i j (omega (arith, a)) b c
    ]

    small_root : (i : ℕ) → i ≤ m → not_after cmp_fn (exchanged i) (arr 0) ≡ true
    small_root i a = elim (Bool-cases (i == 0)) [
      | inl e ↦
          ap (λ k. not_after cmp_fn (exchanged k) (arr 0)) (==→≡ i 0 e)
          ∙ ap (λ x. not_after cmp_fn x (arr 0)) at_start
          ∙ heap-greatest cmp_fn (suc (suc m)) (suc m) arr o s.heap (omega arith)
      | inr e ↦
          ap (λ x. not_after cmp_fn x (arr 0))
            (elsewhere i (ground (arith, e)) (λ t. absurd (omega (arith, t, a))))
          ∙ heap-greatest cmp_fn (suc (suc m)) i arr o s.heap (omega (arith, a))
    ]

    module _ (done : Option (ℕ → A)) (r : Sunk cmp_fn 0 m exchanged done) where
      pub end-same : r.result (suc m) ≡ arr 0
      end-same = r.moved.above (suc m) (omega arith) ∙ at_end

      above-same : (j : ℕ) → suc m < j → r.result j ≡ arr j
      above-same j l =
          r.moved.above j (omega (arith, l))
          ∙ elsewhere j (λ e. absurd (omega (arith, e, l))) (λ e. absurd (omega (arith, e, l)))

      round-Taking : Taking (suc m) last r.result
      round-Taking = record {
        heap = r.heap;
        across = λ i j a b c. elim (Bool-cases (j == suc m)) [
          | inl e ↦
              ap (λ k. not_after cmp_fn (r.result i) (r.result k)) (==→≡ j (suc m) e)
              ∙ ap (λ x. not_after cmp_fn (r.result i) x) end-same
              ∙ r.moved.kept (λ x. not_after cmp_fn x (arr 0)) (λ k p q. small_root k q) i
                  (omega arith) (omega (arith, a))
          | inr e ↦
              ap (λ x. not_after cmp_fn (r.result i) x) (above-same j (ground (arith, e, b)))
              ∙ r.moved.kept (λ x. not_after cmp_fn x (arr j))
                  (λ k p q. small k j q (ground (arith, e, b)) c) i (omega arith) (omega (arith, a))
        ];
        ordered = λ i j a b c. elim (Bool-cases (i == suc m)) [
          | inl e ↦
              (let at : i ≡ suc m = ==→≡ i (suc m) e in
                ap (λ k. not_after cmp_fn (r.result k) (r.result j)) at
                ∙ ap (λ x. not_after cmp_fn x (r.result j)) end-same
                ∙ ap (λ x. not_after cmp_fn (arr 0) x) (above-same j (omega (arith, at, b)))
                ∙ s.across 0 j (omega arith) (omega (arith, at, b)) c)
          | inr e ↦
              ap (λ x. not_after cmp_fn x (r.result j)) (above-same i (ground (arith, e, a)))
              ∙ ap (λ x. not_after cmp_fn (arr i) x) (above-same j (ground (arith, e, a, b)))
              ∙ s.ordered i j (ground (arith, e, a)) b c
        ];
      }

  pub take_loop-goes :
      (m : ℕ) (arr arr1 : ℕ → A)
      → sink_with_ele cmp_fn (suc m) (arr (suc m)) 0 (update arr (suc m) (arr 0)) ≡ some arr1
      → take_loop cmp_fn (suc (suc m)) arr ≡ take_loop cmp_fn (suc m) arr1
  unfolding take_loop
  take_loop-goes m arr arr1 e = rw (take_loop, e) refl

  take_loop-ends : (arr : ℕ → A) → take_loop cmp_fn 1 arr ≡ some arr
  unfolding take_loop
  take_loop-ends arr = refl

  pub take_loop-Ordered :
      (m last : ℕ) (arr : ℕ → A)
      → IsThreeWay cmp_fn
      → m ≤ last
      → Taking (suc m) last arr
      → Ordered cmp_fn 0 last arr (take_loop cmp_fn (suc m) arr)
  take_loop-Ordered zero last arr o l s = record {
    result = arr;
    ran = take_loop-ends arr;
    moved = Moved-refl 0 last arr;
    ordered = λ i j a b c. elim (Bool-cases (i == 0)) [
      | inl e ↦
          (let at : i ≡ 0 = ==→≡ i 0 e in
            ap (λ k. not_after cmp_fn (arr k) (arr j)) at
            ∙ s.across 0 j (omega arith) (omega (arith, at, b)) c)
      | inr e ↦ s.ordered i j (ground (arith, e)) b c
    ];
  }
  take_loop-Ordered (suc m) last arr o l s =
      let first = round-Sunk o m last arr l s in
      let r = take_loop-Ordered m last first.result o (omega (arith, l)) (
        round-Taking o m last arr l s
          (sink_with_ele cmp_fn (suc m) (arr (suc m)) 0 (update arr (suc m) (arr 0))) first) in
      record {
        result = r.result;
        ran = take_loop-goes m arr first.result first.ran ∙ r.ran;
        moved = Moved-trans (exchanged-Moved o m last arr l s) (
            Moved-trans
              (Moved-wider 0 last (omega arith) (omega (arith, l)) (omega arith) first.moved)
              r.moved);
        ordered = r.ordered;
      }

  pub whole-Taking :
      (last : ℕ) (arr : ℕ → A) → HeapFrom cmp_fn 0 (suc last) arr → Taking (suc last) last arr
  whole-Taking last arr h = record {
    heap = h;
    across = λ i j a b c. absurd (omega (arith, b, c));
    ordered = λ i j a b c. absurd (omega (arith, a, b, c));
  }

  pub heap_sort-goes :
      (n : ℕ) (arr arr1 : ℕ → A)
      → build_heap cmp_fn 11 arr ≡ some arr1
      → heap_sort cmp_fn int_size n arr ≡ take_loop cmp_fn n arr1
  unfolding heap_sort
  heap_sort-goes n arr arr1 e = rw (heap_sort, e) refl

  -- With a total and transitive cmp_fn that is not negative on (b, a) where it is not positive on (a,
  -- b), and 11 elements of the size of an int, the sort ends: of two of the elements the one with the
  -- smaller index is not after the other, and each test `p` holds of as many of them as before.
  pub heap_sort-Ordered :
      (arr : ℕ → A) (p : A → Bool) (i j : ℕ)
      → IsThreeWay cmp_fn
      → i < j
      → j < 11
      → (arr' : ℕ → A) × (heap_sort cmp_fn int_size 11 arr ≡ some arr')
        × (not_after cmp_fn (arr' i) (arr' j) ≡ true)
        × (count p (backwards 11 arr') ≡ count p (backwards 11 arr))
  heap_sort-Ordered arr p i j o a b =
      let h = build_heap-Sunk cmp_fn 10 arr o in
      let r = take_loop-Ordered 10 10 h.result o (omega arith) (whole-Taking 10 h.result h.heap) in
      (
        r.result,
        heap_sort-goes 11 arr h.result h.ran ∙ r.ran,
        r.ordered i j (omega arith) a (omega (arith, b)),
        r.moved.counted p 11 (omega arith) ∙ h.moved.counted p 11 (omega arith),
      )
