-- ===== src/Sort/Quick/Recursion.antt =====
-- The recursion of the quick sort of Algorithm/Sort/sort.h puts an array in order.
use code_snippet.Prelude.{
  ℕ, zero, suc, ◌+◌, ◌-◌, ◌≤◌, ◌<◌, ◌≡◌, refl, ◌∙◌, sym, ap, arith, Option, some, Bool, true, false,
  ℤ, ◌⊎◌, inl, inr, leb, leb→le, ltb, ltb→lt, lt→ltb, if◌then◌else◌, Bool-cases,
}
use mathlib.Core.Path.{subst}
use code_snippet.Sort.{not_after, and_then}
use code_snippet.Sort.Order.{backwards, count}
use code_snippet.Sort.Moves.{Moved, Moved-refl, Moved-trans, Moved-wider, IsThreeWay, Ordered}
use code_snippet.Sort.Quick.{Parts, three_way_partition, sort_part, quick_sort}
use code_snippet.Sort.Quick.Sides.{Split}
use code_snippet.Sort.Quick.Partition.{three_way_partition-Ran}

module _ {A : Type 0} (cmp_fn : A → A → ℤ) where
  -- The elements from `lo` on and before `less` are put in order.
  record Lower (lo less hi : ℕ) (arr : ℕ → A) (done : Option (ℕ → A)) : Type 0 where
    result : ℕ → A
    ran : done ≡ some result
    moved : Moved lo hi arr result
    after : (j : ℕ) → less ≤ j → result j ≡ arr j
    kept :
        (p : A → Bool)
        → ((i : ℕ) → lo ≤ i → i < less → p (arr i) ≡ true)
        → (i : ℕ) → lo ≤ i
        → i < less
        → p (result i) ≡ true
    ordered : (i j : ℕ) → lo ≤ i → i < j → j < less → not_after cmp_fn (result i) (result j) ≡ true

  first_part-Lower :
      (sort : (ℕ → A) → ℕ → ℕ → Option (ℕ → A)) (lo less hi : ℕ) (arr : ℕ → A)
      → lo ≤ less
      → less ≤ hi
      → Ordered cmp_fn lo (less - 1) arr (sort arr lo (less - 1))
      → Lower lo less hi arr (if ltb 0 less then sort arr lo (less - 1) else some arr)
  first_part-Lower sort lo zero hi arr a b r = record {
    result = arr;
    ran = refl;
    moved = Moved-refl lo hi arr;
    after = λ j l. refl;
    kept = λ p h i l m. h i l m;
    ordered = λ i j l m n. absurd (omega (arith, n));
  }
  first_part-Lower sort lo (suc less) hi arr a b r = record {
    result = r.result;
    ran = rw (lt→ltb 0 (suc less) (omega arith)) r.ran;
    moved = Moved-wider lo hi (omega arith) (omega (arith, b)) (omega (arith, a)) r.moved;
    after = λ j l. r.moved.above j (omega (arith, l));
    kept = λ p h i l m. r.moved.kept p (λ k c d. h k c (omega (arith, d))) i l (omega (arith, m));
    ordered = λ i j l m n. r.ordered i j l m (omega (arith, n));
  }

  module _ (o : IsThreeWay cmp_fn) (lo hi : ℕ) (arr : ℕ → A) (parts : Parts A)
      (s : Split cmp_fn lo hi arr parts) (low : Option (ℕ → A))
      (r : Lower lo parts.less hi parts.array low) (all : Option (ℕ → A))
      (u : Ordered cmp_fn (parts.greater + 1) hi r.result all) where
    -- Below the upper part nothing changes after the lower one.
    middle-same : (i : ℕ) → parts.less ≤ i → i ≤ parts.greater → u.result i ≡ parts.array i
    middle-same i l m = u.moved.below i (omega (arith, m)) ∙ r.after i l

    first-low : (i : ℕ) → lo ≤ i → i ≤ parts.greater → not_after cmp_fn (u.result i) s.pivot ≡ true
    first-low i l m = elim (Bool-cases (ltb i parts.less)) [
      | inl e ↦
          ap (λ x. not_after cmp_fn x s.pivot) (u.moved.below i (omega (arith, m)))
          ∙ r.kept (λ x. not_after cmp_fn x s.pivot)
              (λ k c d. s.low k c (omega (arith, d, s.some_equal))) i l (ltb→lt i parts.less e)
      | inr e ↦
          ap (λ x. not_after cmp_fn x s.pivot) (middle-same i (ground (arith, e)) m) ∙ s.low i l m
    ]

    last-high : (j : ℕ) → parts.less ≤ j → j ≤ hi → not_after cmp_fn s.pivot (u.result j) ≡ true
    last-high j l m = elim (Bool-cases (leb j parts.greater)) [
      | inl e ↦
          ap (λ x. not_after cmp_fn s.pivot x) (middle-same j l (leb→le j parts.greater e))
          ∙ s.high j l m
      | inr e ↦
          u.moved.kept (λ x. not_after cmp_fn s.pivot x)
            (λ k c d.
              ap (λ x. not_after cmp_fn s.pivot x) (r.after k (omega (arith, c, s.some_equal)))
              ∙ s.high k (omega (arith, c, s.some_equal)) d)
            j (ground (arith, e)) m
    ]

    all-ordered :
        (i j : ℕ) → lo ≤ i → i < j → j ≤ hi → not_after cmp_fn (u.result i) (u.result j) ≡ true
    all-ordered i j l m n = sides (Bool-cases (ltb j parts.less)) (Bool-cases (ltb parts.greater i))
      where
        sides :
            (ltb j parts.less ≡ true) ⊎ (ltb j parts.less ≡ false)
            → (ltb parts.greater i ≡ true) ⊎ (ltb parts.greater i ≡ false)
            → not_after cmp_fn (u.result i) (u.result j) ≡ true
        sides (inl e) g =
            let below : j < parts.less = ltb→lt j parts.less e in
            subst (λ x. not_after cmp_fn x (u.result j) ≡ true)
              (sym (u.moved.below i (omega (arith, below, m, s.some_equal))))
              (subst (λ x. not_after cmp_fn (r.result i) x ≡ true)
                (sym (u.moved.below j (omega (arith, below, s.some_equal))))
                (r.ordered i j l m below))
        sides (inr e) (inl g) =
            let above : parts.greater < i = ltb→lt parts.greater i g in
            u.ordered i j (omega (arith, above)) m n
        sides (inr e) (inr g) =
            o.order.transitive (u.result i) s.pivot (u.result j) (first-low i l (ground (arith, g)))
              (last-high j (ground (arith, e)) n)

    both-Ordered : (run : Option (ℕ → A)) → run ≡ all → Ordered cmp_fn lo hi arr run
    both-Ordered run e = record {
      result = u.result;
      ran = e ∙ u.ran;
      moved = Moved-trans s.moved (
          Moved-trans r.moved (
            Moved-wider lo hi (omega (arith, s.begun, s.some_equal)) (omega arith)
              (omega (arith, s.inside)) u.moved));
      ordered = all-ordered;
    }

  sort_part-ends :
      (fuel lo hi : ℕ) (arr : ℕ → A)
      → leb hi lo ≡ true
      → sort_part cmp_fn (suc fuel) arr lo hi ≡ some arr
  unfolding sort_part
  sort_part-ends fuel lo hi arr e = rw (sort_part, e) refl

  sort_part-goes :
      (fuel lo hi : ℕ) (arr : ℕ → A) (parts : Parts A) (arr1 : ℕ → A)
      → leb hi lo ≡ false
      → three_way_partition cmp_fn arr lo hi ≡ some parts
      → (if ltb 0 parts.less
          then sort_part cmp_fn fuel parts.array lo (parts.less - 1)
          else some parts.array)
        ≡ some arr1
      → sort_part cmp_fn (suc fuel) arr lo hi ≡ sort_part cmp_fn fuel arr1 (parts.greater + 1) hi
  unfolding sort_part
  sort_part-goes fuel lo hi arr parts arr1 e f g =
      rw (sort_part, e, f)
        (ap (λ low. and_then low (λ a. sort_part cmp_fn fuel a (parts.greater + 1) hi)) g)

  pub sort_part-Ordered :
      (fuel lo hi : ℕ) (arr : ℕ → A)
      → IsThreeWay cmp_fn
      → hi + 1 ≤ fuel + lo
      → 1 ≤ fuel
      → Ordered cmp_fn lo hi arr (sort_part cmp_fn fuel arr lo hi)
  sort_part-Ordered zero lo hi arr o l m = absurd (omega (arith, m))
  sort_part-Ordered (suc fuel) lo hi arr o l m = elim (Bool-cases (leb hi lo)) [
    | inl e ↦ record {
      result = arr;
      ran = sort_part-ends fuel lo hi arr e;
      moved = Moved-refl lo hi arr;
      ordered = λ i j a b c. absurd (ground (arith, e, a, b, c));
    }
    | inr e ↦
        (let order : lo < hi = ground (arith, e) in
          let t = three_way_partition-Ran cmp_fn lo hi arr o (omega (arith, order)) in
          let s = t.split in
          let r =
            first_part-Lower (sort_part cmp_fn fuel) lo t.parts.less hi t.parts.array s.begun
              (omega (arith, s.some_equal, s.inside))
              (sort_part-Ordered fuel lo (t.parts.less - 1) t.parts.array o
                (omega (arith, l, s.some_equal, s.inside, order)) (omega (arith, l, order))) in
          let u =
            sort_part-Ordered fuel (t.parts.greater + 1) hi r.result o
              (omega (arith, l, s.begun, s.some_equal)) (omega (arith, l, order)) in
          both-Ordered o lo hi arr t.parts s
            (if ltb 0 t.parts.less
              then sort_part cmp_fn fuel t.parts.array lo (t.parts.less - 1)
              else some t.parts.array)
            r (sort_part cmp_fn fuel r.result (t.parts.greater + 1) hi) u
            (sort_part cmp_fn (suc fuel) arr lo hi)
            (sort_part-goes fuel lo hi arr t.parts r.result e t.ran r.ran))
  ]

  -- With a total and transitive cmp_fn that is not negative on (b, a) where it is not positive on (a,
  -- b), `n` elements and `n` not 0, the sort ends: of two of the `n` elements the one with the smaller
  -- index is not after the other, each test `p` holds of as many of them as before, and an element `k`
  -- past them is as before.
  pub quick_sort-Ordered :
      (n : ℕ) (arr : ℕ → A) (p : A → Bool) (i j k : ℕ)
      → IsThreeWay cmp_fn
      → 0 < n
      → i < j
      → j < n
      → n ≤ k
      → (arr' : ℕ → A) × (quick_sort cmp_fn n arr ≡ some arr')
        × (not_after cmp_fn (arr' i) (arr' j) ≡ true)
        × (count p (backwards n arr') ≡ count p (backwards n arr))
        × (arr' k ≡ arr k)
  unfolding quick_sort
  quick_sort-Ordered zero arr p i j k o l a b c = absurd (omega (arith, l))
  quick_sort-Ordered (suc last) arr p i j k o l a b c =
      let r = sort_part-Ordered (suc last) 0 last arr o (omega arith) (omega arith) in
      (
        r.result,
        r.ran,
        r.ordered i j (omega arith) a (omega (arith, b)),
        r.moved.counted p (suc last) (omega arith),
        r.moved.above k (omega (arith, c)),
      )
