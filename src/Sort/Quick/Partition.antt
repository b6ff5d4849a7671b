-- ===== src/Sort/Quick/Partition.antt =====
-- The three-way partition of Algorithm/Sort/sort.h puts the elements on the two sides of a pivot.
use code_snippet.Prelude.{
  ℕ, zero, suc, ◌+◌, ◌-◌, ◌/◌, ◌≤◌, ◌<◌, ◌≡◌, refl, ◌∙◌, arith, Option, some, true, false, ℤ, pos,
  negsuc, ◌⊎◌, inl, inr, leb, leb→le, ltb, ltb→lt, Bool-cases,
}
use code_snippet.Sort.{not_after}
use code_snippet.Sort.Moves.{Moved, Moved-refl, Moved-trans, IsThreeWay}
use code_snippet.Sort.Quick.{Parts, partition_loop, three_way_partition, swap_ele, median_of3}
use code_snippet.Sort.Quick.Sides.{
  swap_ele-Moved, three_signs, Sides, Split, loop-equal, loop-later, loop-earlier, loop-ends,
  one_further, Sides-equal, Sides-later, Sides-earlier,
}

module _ {A : Type 0} (cmp_fn : A → A → ℤ) where
  pub record Ran (lo hi : ℕ) (arr : ℕ → A) (done : Option (Parts A)) : Type 0 where
    pub parts : Parts A
    pub ran : done ≡ some parts
    pub split : Split cmp_fn lo hi arr parts

  -- The moves before a run that ends with a split.
  Ran-after :
      {lo hi : ℕ} {arr arr1 : ℕ → A} {done done1 : Option (Parts A)}
      → Moved lo hi arr arr1
      → done ≡ done1
      → Ran lo hi arr1 done1
      → Ran lo hi arr done
  Ran-after m e r = record {
    parts = r.parts;
    ran = e ∙ r.ran;
    split = record {
      pivot = r.split.pivot;
      moved = Moved-trans m r.split.moved;
      low = r.split.low;
      high = r.split.high;
      begun = r.split.begun;
      some_equal = r.split.some_equal;
      inside = r.split.inside;
    };
  }

  partition_loop-Ran :
      (fuel lo hi : ℕ) (pivot : A) (arr : ℕ → A) (lt eq gt : ℕ)
      → IsThreeWay cmp_fn
      → Sides cmp_fn lo hi pivot arr lt eq gt
      → gt + 1 < fuel + eq
      → Ran lo hi arr (partition_loop cmp_fn fuel arr lt eq gt)
  partition_loop-Ran zero lo hi pivot arr lt eq gt o s l = absurd (omega (arith, l, s.ended))
  partition_loop-Ran (suc fuel) lo hi pivot arr lt eq gt o s l =
      round (partition_loop-Ran fuel lo hi pivot) (Bool-cases (leb eq gt))
        (three_signs (cmp_fn (arr eq) (arr lt)))
    where
      above : (i : ℕ) → leb eq gt ≡ false → lt ≤ i → i ≤ hi → not_after cmp_fn pivot (arr i) ≡ true
      above i e a b = elim (Bool-cases (ltb i eq)) [
        | inl u ↦ s.equal i a (ltb→lt i eq u)
        | inr u ↦ s.high i (ground (arith, u, e, s.ended)) b
      ]

      round :
          ((arr1 : ℕ → A) (lt1 eq1 gt1 : ℕ)
            → IsThreeWay cmp_fn
            → Sides cmp_fn lo hi pivot arr1 lt1 eq1 gt1
            → gt1 + 1 < fuel + eq1
            → Ran lo hi arr1 (partition_loop cmp_fn fuel arr1 lt1 eq1 gt1))
          → (leb eq gt ≡ true) ⊎ (leb eq gt ≡ false)
          → (cmp_fn (arr eq) (arr lt) ≡ pos 0)
            ⊎ ((n : ℕ) × (cmp_fn (arr eq) (arr lt) ≡ negsuc n))
            ⊎ ((n : ℕ) × (cmp_fn (arr eq) (arr lt) ≡ pos (suc n)))
          → Ran lo hi arr (partition_loop cmp_fn (suc fuel) arr lt eq gt)
      round rest (inr e) z = record {
        parts = record { array = arr; less = lt; greater = gt };
        ran = loop-ends cmp_fn fuel arr lt eq gt e;
        split = record {
          pivot = pivot;
          moved = Moved-refl lo hi arr;
          low = λ i a b. s.low i a (ground (arith, e, b));
          high = λ i a b. above i e a b;
          begun = s.begun;
          some_equal = ground (arith, e, s.ended, s.some_equal);
          inside = s.inside;
        };
      }
      round rest (inl e) (inl z) =
          Ran-after (Moved-refl lo hi arr) (loop-equal cmp_fn fuel arr lt eq gt e z) (
            rest arr lt (eq + 1) gt o
              (Sides-equal cmp_fn o lo hi pivot arr lt eq gt s (leb→le eq gt e) z)
              (omega (arith, l)))
      round rest (inl e) (inr (inl z)) =
          let more = leb→le eq gt e in
          Ran-after
            (swap_ele-Moved lo hi eq gt arr (omega (arith, s.begun, s.some_equal))
              (omega (arith, more, s.inside)) (omega (arith, s.begun, s.some_equal, more)) s.inside)
            (loop-later cmp_fn fuel arr lt eq gt z.0 e z.1)
            (rest (swap_ele arr eq gt) lt eq (gt - 1) o
              (Sides-later cmp_fn o lo hi pivot arr lt eq gt s z.0 more z.1)
              (omega (arith, l, more, s.some_equal)))
      round rest (inl e) (inr (inr z)) =
          let more = leb→le eq gt e in
          Ran-after
            (swap_ele-Moved lo hi lt eq arr s.begun (omega (arith, s.some_equal, more, s.inside))
              (omega (arith, s.begun, s.some_equal)) (omega (arith, more, s.inside)))
            (loop-earlier cmp_fn fuel arr lt eq gt z.0 e z.1)
            (rest (swap_ele arr lt eq) (lt + 1) (eq + 1) gt o
              (Sides-earlier cmp_fn o lo hi pivot arr lt eq gt s z.0 more z.1) (omega (arith, l)))

  median_of3-inside :
      (arr : ℕ → A) (lo mid hi : ℕ)
      → lo ≤ mid
      → mid ≤ hi
      → (lo ≤ median_of3 cmp_fn arr lo mid hi) × (median_of3 cmp_fn arr lo mid hi ≤ hi)
  unfolding median_of3
  median_of3-inside arr lo mid hi a b = (ground (arith, a, b), ground (arith, a, b))

  same-not_after : (a : A) → IsThreeWay cmp_fn → not_after cmp_fn a a ≡ true
  same-not_after a o = elim (Bool-cases (not_after cmp_fn a a)) [
    | inl e ↦ e
    | inr e ↦ o.order.total a a e
  ]

  middle-inside : (lo hi : ℕ) → lo ≤ hi → lo + (hi - lo) / 2 ≤ hi
  middle-inside lo hi l = omega (arith, l)

  pub three_way_partition-Ran :
      (lo hi : ℕ) (arr : ℕ → A)
      → IsThreeWay cmp_fn
      → lo ≤ hi
      → Ran lo hi arr (three_way_partition cmp_fn arr lo hi)
  unfolding three_way_partition
  three_way_partition-Ran lo hi arr o l =
      let mid = lo + (hi - lo) / 2 in
      let m = median_of3 cmp_fn arr lo mid hi in
      let c = median_of3-inside arr lo mid hi (omega arith) (middle-inside lo hi l) in
      let arr1 = swap_ele arr m lo in
      Ran-after (swap_ele-Moved lo hi m lo arr c.0 c.1 (omega arith) l) refl (
        partition_loop-Ran (hi - lo + 1) lo hi (arr1 lo) arr1 lo (lo + 1) hi o
          (record {
            low = λ i a b.
                one_further cmp_fn (λ k. lo ≤ k → not_after cmp_fn (arr1 k) (arr1 lo) ≡ true) lo
                  (λ k p q. absurd (omega (arith, p, q))) (λ q. same-not_after (arr1 lo) o) i b a;
            equal = λ i a b.
                one_further cmp_fn (λ k. lo ≤ k → not_after cmp_fn (arr1 lo) (arr1 k) ≡ true) lo
                  (λ k p q. absurd (omega (arith, p, q))) (λ q. same-not_after (arr1 lo) o) i b a;
            high = λ i a b. absurd (omega (arith, a, b));
            begun = omega arith;
            some_equal = omega arith;
            ended = omega (arith, l);
            inside = omega arith;
          })
          (omega (arith, l)))
