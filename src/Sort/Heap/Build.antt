-- ===== src/Sort/Heap/Build.antt =====
-- The heap of Algorithm/Sort/sort.h is built bottom-up.
use code_snippet.Prelude.{
  ℕ, zero, suc, ◌+◌, ◌/◌, ◌≤◌, ◌<◌, ◌≡◌, refl, ◌∙◌, sym, ap, arith, some, Bool, true, false, ℤ, inl,
  inr, ◌==◌, Bool-cases, update, update_ne, update_self,
}
use mathlib.Core.Path.{subst}
use code_snippet.Sort.{not_after}
use code_snippet.Sort.Order.{backwards, count}
use code_snippet.Sort.Moves.{Moved, Moved-refl, Moved-trans, Moved-swap, IsThreeWay, ==→≡}
use code_snippet.Sort.Heap.{sink_with_ele, sink, build_loop, build_heap, parent}
use code_snippet.Sort.Heap.Chil.{IsChil, HeapFrom, Sinking, Sunk, same-not_after, chil-above}
use code_snippet.Sort.Heap.Sink.{sink_loop-Sunk}

module _ {A : Type 0} where
  same-update : (arr : ℕ → A) (i j : ℕ) → update arr i (arr i) j ≡ arr j
  same-update arr i j = elim (Bool-cases (i == j)) [
    | inl e ↦
        (let same : i ≡ j = ==→≡ i j e in
          subst (λ k. update arr i (arr i) k ≡ arr k) same (update_self arr i (arr i)))
    | inr e ↦ update_ne arr i j (arr i) (ground (arith, e))
  ]

  same-Moved : (last i : ℕ) (arr : ℕ → A) → i ≤ last → Moved 0 last arr (update arr i (arr i))
  same-Moved last i arr l =
      Moved-swap 0 last i i arr (update arr i (arr i)) (omega arith) l (omega arith) l
        (same-update arr i i) (same-update arr i i) (λ k u v. same-update arr i k)

module _ {A : Type 0} (cmp_fn : A → A → ℤ) where
  -- One more element becomes the root of a heap.
  begun-Sinking :
      (k n : ℕ) (arr : ℕ → A)
      → HeapFrom cmp_fn (suc k) n arr
      → Sinking cmp_fn k n k (update arr k (arr k))
  unfolding HeapFrom
  begun-Sinking k n arr h = record {
    edges = λ i c a u t l.
        ap (λ x. not_after cmp_fn x (update arr k (arr k) i)) (same-update arr k c)
        ∙ ap (λ x. not_after cmp_fn (arr c) x) (same-update arr k i)
        ∙ h i c (omega (arith, a, u)) t l;
    bridged = λ i c a t u l. absurd (omega (arith, a, chil-above i k t));
  }

  sink-Sunk :
      (k last : ℕ) (arr : ℕ → A)
      → IsThreeWay cmp_fn
      → k ≤ last
      → HeapFrom cmp_fn (suc k) (suc last) arr
      → Sunk cmp_fn k last arr (sink cmp_fn (suc last) k arr)
  unfolding sink sink_with_ele
  sink-Sunk k last arr o l h =
      let r =
        sink_loop-Sunk cmp_fn (suc last + 1) k last k (arr k) arr o (omega arith) l (omega arith)
          (begun-Sinking k (suc last) arr h) in
      record {
        result = r.result;
        ran = r.ran;
        heap = r.heap;
        moved = Moved-trans (same-Moved last k arr l) r.moved;
      }

  build_loop-goes :
      (n k : ℕ) (arr arr1 : ℕ → A)
      → sink cmp_fn n (suc k) arr ≡ some arr1
      → build_loop cmp_fn n (suc k) arr ≡ build_loop cmp_fn n k arr1
  unfolding build_loop
  build_loop-goes n k arr arr1 e = rw (build_loop, e) refl

  build_loop-first : (n : ℕ) (arr : ℕ → A) → build_loop cmp_fn n 0 arr ≡ sink cmp_fn n 0 arr
  unfolding build_loop
  build_loop-first n arr = refl

  build_loop-Sunk :
      (k last : ℕ) (arr : ℕ → A)
      → IsThreeWay cmp_fn
      → k ≤ last
      → HeapFrom cmp_fn (suc k) (suc last) arr
      → Sunk cmp_fn 0 last arr (build_loop cmp_fn (suc last) k arr)
  build_loop-Sunk zero last arr o l h =
      subst (Sunk cmp_fn 0 last arr) (sym (build_loop-first (suc last) arr))
        (sink-Sunk 0 last arr o l h)
  build_loop-Sunk (suc k) last arr o l h =
      let s = sink-Sunk (suc k) last arr o l h in
      let r = build_loop-Sunk k last s.result o (omega (arith, l)) s.heap in
      record {
        result = r.result;
        ran = build_loop-goes (suc last) k arr s.result s.ran ∙ r.ran;
        heap = r.heap;
        moved = Moved-trans s.moved r.moved;
      }

  leaves-HeapFrom : (last : ℕ) (arr : ℕ → A) → HeapFrom cmp_fn (suc (parent last)) (suc last) arr
  unfolding HeapFrom
  leaves-HeapFrom last arr i c a u l = absurd (ground (arith, a, u, l))

  one-HeapFrom : (arr : ℕ → A) → HeapFrom cmp_fn 0 1 arr
  unfolding HeapFrom
  one-HeapFrom arr i c a u l = absurd (ground (arith, a, u, l))

  build_heap-one : (arr : ℕ → A) → build_heap cmp_fn 1 arr ≡ some arr
  unfolding build_heap
  build_heap-one arr = refl

  build_heap-more :
      (last : ℕ) (arr : ℕ → A)
      → build_heap cmp_fn (suc (suc last)) arr
        ≡ build_loop cmp_fn (suc (suc last)) (parent (suc last)) arr
  unfolding build_heap
  build_heap-more last arr = let e : (suc (suc last) == 1) ≡ false = ground arith in rw e refl

  pub build_heap-Sunk :
      (last : ℕ) (arr : ℕ → A)
      → IsThreeWay cmp_fn
      → Sunk cmp_fn 0 last arr (build_heap cmp_fn (suc last) arr)
  build_heap-Sunk zero arr o = record {
    result = arr;
    ran = build_heap-one arr;
    heap = one-HeapFrom arr;
    moved = Moved-refl 0 0 arr;
  }
  build_heap-Sunk (suc last) arr o =
      let r =
        build_loop-Sunk (parent (suc last)) (suc last) arr o (omega arith)
          (leaves-HeapFrom (suc last) arr) in
      record {
        result = r.result;
        ran = build_heap-more last arr ∙ r.ran;
        heap = r.heap;
        moved = r.moved;
      }

  -- The root of a heap is the greatest element.
  root-greatest :
      (fuel n j : ℕ) (v : ℕ → A)
      → IsThreeWay cmp_fn
      → HeapFrom cmp_fn 0 n v
      → j < n
      → j < fuel
      → not_after cmp_fn (v j) (v 0) ≡ true
  unfolding HeapFrom
  root-greatest zero n j v o h l f = absurd (omega (arith, f))
  root-greatest (suc fuel) n zero v o h l f = same-not_after cmp_fn (v 0) o
  root-greatest (suc fuel) n (suc j) v o h l f =
      let up : IsChil (j / 2) (suc j) = ground arith in
      o.order.transitive (v (suc j)) (v (j / 2)) (v 0) (h (j / 2) (suc j) (omega arith) up l)
        (root-greatest fuel n (j / 2) v o h (omega (arith, l)) (omega (arith, f)))

  pub heap-greatest :
      (n j : ℕ) (v : ℕ → A)
      → IsThreeWay cmp_fn
      → HeapFrom cmp_fn 0 n v
      → j < n
      → not_after cmp_fn (v j) (v 0) ≡ true
  heap-greatest n j v o h l = root-greatest (suc j) n j v o h l (omega arith)

  -- With a total and transitive cmp_fn that is not negative on (b, a) where it is not positive on (a,
  -- b), and `n` not 0, the heap is built: a child is not after its parent, no element is after the root,
  -- and each test `p` holds of as many elements as before.
  pub build_heap_orders :
      (n i c j : ℕ) (arr : ℕ → A) (p : A → Bool)
      → IsThreeWay cmp_fn
      → 0 < n
      → IsChil i c
      → c < n
      → j < n
      → (arr' : ℕ → A) × (build_heap cmp_fn n arr ≡ some arr')
        × (not_after cmp_fn (arr' c) (arr' i) ≡ true)
        × (not_after cmp_fn (arr' j) (arr' 0) ≡ true)
        × (count p (backwards n arr') ≡ count p (backwards n arr))
  unfolding HeapFrom
  build_heap_orders zero i c j arr p o l h m k = absurd (omega (arith, l))
  build_heap_orders (suc last) i c j arr p o l h m k =
      let r = build_heap-Sunk last arr o in
      (
        r.result,
        r.ran,
        r.heap i c (omega arith) h m,
        heap-greatest (suc last) j r.result o r.heap k,
        r.moved.counted p (suc last) (omega arith),
      )
