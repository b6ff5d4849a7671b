-- ===== src/Sort/Quick/Sides.antt =====
-- The rounds of the three-way partition of Algorithm/Sort/sort.h, and what they keep.
use code_snippet.Prelude.{
  ℕ, zero, suc, ◌+◌, ◌-◌, ◌≤◌, ◌<◌, ◌≡◌, refl, sym, ap, arith, some, true, false, ℤ, pos, negsuc,
  ◌≢◌, ◌⊎◌, inl, inr, ◌==◌, leb, Bool-cases,
}
use mathlib.Core.Path.{subst}
use code_snippet.Sort.{before, not_after}
use code_snippet.Sort.Moves.{Moved, Moved-swap, IsThreeWay, ==→≡}
use code_snippet.Sort.Quick.{Parts, partition_loop, swap_ele}

module _ {A : Type 0} where
  -- What holds of the elements of an array after an exchange.
  pub swap_ele-holds :
      (Q : A → Type 0) (f : ℕ → A) (i j k : ℕ)
      → (k ≡ i → Q (f j))
      → (k ≡ j → Q (f i))
      → (k ≢ i → k ≢ j → Q (f k))
      → Q (swap_ele f i j k)
  swap_ele-holds Q f i j k at_i at_j rest = swapped (Bool-cases (k == i)) (Bool-cases (k == j))
    where
      swapped :
          ((k == i) ≡ true) ⊎ ((k == i) ≡ false)
          → ((k == j) ≡ true) ⊎ ((k == j) ≡ false)
          → Q (swap_ele f i j k)
      swapped u (inl v) =
          let same : swap_ele f i j k ≡ f i = ground (arith, v) in
          subst Q (sym same) (at_j (==→≡ k j v))
      swapped (inl u) (inr v) =
          let same : swap_ele f i j k ≡ f j = ground (arith, u, v) in
          subst Q (sym same) (at_i (==→≡ k i u))
      swapped (inr u) (inr v) =
          let same : swap_ele f i j k ≡ f k = ground (arith, u, v) in
          subst Q (sym same) (rest (ground (arith, u)) (ground (arith, v)))

  pub swap_ele-Moved :
      (lo hi i j : ℕ) (f : ℕ → A)
      → lo ≤ i
      → i ≤ hi
      → lo ≤ j
      → j ≤ hi
      → Moved lo hi f (swap_ele f i j)
  swap_ele-Moved lo hi i j f a b c d =
      Moved-swap lo hi i j f (swap_ele f i j) a b c d
        (swap_ele-holds (λ x. x ≡ f j) f i j i (λ e. refl) (λ e. ap f e) (λ u v. absurd (u refl)))
        (swap_ele-holds (λ x. x ≡ f i) f i j j (λ e. ap f e) (λ e. refl) (λ u v. absurd (v refl)))
        (λ k u v.
          swap_ele-holds (λ x. x ≡ f k) f i j k (λ e. absurd (u e)) (λ e. absurd (v e))
            (λ s t. refl))

pub three_signs : (z : ℤ) → (z ≡ pos 0) ⊎ ((n : ℕ) × (z ≡ negsuc n)) ⊎ ((n : ℕ) × (z ≡ pos (suc n)))
three_signs (pos zero) = inl refl
three_signs (pos (suc n)) = inr (inr (n, refl))
three_signs (negsuc n) = inr (inl (n, refl))

module _ {A : Type 0} (cmp_fn : A → A → ℤ) where
  -- With respect to a pivot value, the elements before `eq` are not after it, and those from `lt` to `eq`
  -- and above `gt` are not before it.
  pub record Sides (lo hi : ℕ) (pivot : A) (arr : ℕ → A) (lt eq gt : ℕ) : Type 0 where
    pub low : (i : ℕ) → lo ≤ i → i < eq → not_after cmp_fn (arr i) pivot ≡ true
    pub equal : (i : ℕ) → lt ≤ i → i < eq → not_after cmp_fn pivot (arr i) ≡ true
    pub high : (i : ℕ) → gt < i → i ≤ hi → not_after cmp_fn pivot (arr i) ≡ true
    pub begun : lo ≤ lt
    pub some_equal : lt < eq
    pub ended : eq ≤ gt + 1
    pub inside : gt ≤ hi

  -- A partition of the elements from `lo` to `hi` around a pivot value.
  pub record Split (lo hi : ℕ) (arr : ℕ → A) (parts : Parts A) : Type 0 where
    pub pivot : A
    pub moved : Moved lo hi arr parts.array
    pub low : (i : ℕ) → lo ≤ i → i ≤ parts.greater → not_after cmp_fn (parts.array i) pivot ≡ true
    pub high : (i : ℕ) → parts.less ≤ i → i ≤ hi → not_after cmp_fn pivot (parts.array i) ≡ true
    pub begun : lo ≤ parts.less
    pub some_equal : parts.less ≤ parts.greater
    pub inside : parts.greater ≤ hi

  -- The loop at an equal, a later and an earlier element.
  pub loop-equal :
      (fuel : ℕ) (arr : ℕ → A) (lt eq gt : ℕ)
      → leb eq gt ≡ true
      → cmp_fn (arr eq) (arr lt) ≡ pos 0
      → partition_loop cmp_fn (suc fuel) arr lt eq gt
        ≡ partition_loop cmp_fn fuel arr lt (eq + 1) gt
  unfolding partition_loop
  loop-equal fuel arr lt eq gt e f = rw (partition_loop, e, f) refl

  pub loop-later :
      (fuel : ℕ) (arr : ℕ → A) (lt eq gt n : ℕ)
      → leb eq gt ≡ true
      → cmp_fn (arr eq) (arr lt) ≡ negsuc n
      → partition_loop cmp_fn (suc fuel) arr lt eq gt
        ≡ partition_loop cmp_fn fuel (swap_ele arr eq gt) lt eq (gt - 1)
  unfolding partition_loop
  loop-later fuel arr lt eq gt n e f = rw (partition_loop, e, f) refl

  pub loop-earlier :
      (fuel : ℕ) (arr : ℕ → A) (lt eq gt n : ℕ)
      → leb eq gt ≡ true
      → cmp_fn (arr eq) (arr lt) ≡ pos (suc n)
      → partition_loop cmp_fn (suc fuel) arr lt eq gt
        ≡ partition_loop cmp_fn fuel (swap_ele arr lt eq) (lt + 1) (eq + 1) gt
  unfolding partition_loop
  loop-earlier fuel arr lt eq gt n e f = rw (partition_loop, e, f) refl

  pub loop-ends :
      (fuel : ℕ) (arr : ℕ → A) (lt eq gt : ℕ)
      → leb eq gt ≡ false
      → partition_loop cmp_fn (suc fuel) arr lt eq gt
        ≡ some (record { array = arr; less = lt; greater = gt })
  unfolding partition_loop
  loop-ends fuel arr lt eq gt e = rw (partition_loop, e) refl

  -- What a comparison says of the two elements.
  pub later-after :
      (a b : A) (n : ℕ) → IsThreeWay cmp_fn → cmp_fn a b ≡ negsuc n → not_after cmp_fn b a ≡ true
  later-after a b n o e = o.opposite a b (rw (before, e) refl)

  pub equal-after : (a b : A) → IsThreeWay cmp_fn → cmp_fn a b ≡ pos 0 → not_after cmp_fn b a ≡ true
  equal-after a b o e = o.opposite a b (rw (before, e) refl)

  pub pos-before : (a b : A) (n : ℕ) → cmp_fn a b ≡ pos n → not_after cmp_fn a b ≡ true
  pos-before a b n e = rw (not_after, e) refl

  pub one_further :
      (Q : ℕ → Type 0) (n : ℕ) → ((i : ℕ) → i < n → Q i) → Q n → (i : ℕ) → i < n + 1 → Q i
  one_further Q n below at i l = elim (Bool-cases (i == n)) [
    | inl e ↦ subst Q (sym (==→≡ i n e)) at
    | inr e ↦ below i (ground (arith, e, l))
  ]

  module _ (o : IsThreeWay cmp_fn) (lo hi : ℕ) (pivot : A) (arr : ℕ → A) (lt eq gt : ℕ)
      (s : Sides lo hi pivot arr lt eq gt) where
    pub lt-low : not_after cmp_fn (arr lt) pivot ≡ true
    lt-low = s.low lt s.begun s.some_equal

    pub lt-high : not_after cmp_fn pivot (arr lt) ≡ true
    lt-high = s.equal lt (omega arith) s.some_equal

    pub Sides-equal :
        eq ≤ gt → cmp_fn (arr eq) (arr lt) ≡ pos 0 → Sides lo hi pivot arr lt (eq + 1) gt
    Sides-equal more e = record {
      low = λ i a b.
          one_further (λ k. lo ≤ k → not_after cmp_fn (arr k) pivot ≡ true) eq
            (λ k l m. s.low k m l)
            (λ l.
              o.order.transitive (arr eq) (arr lt) pivot (pos-before (arr eq) (arr lt) 0 e) lt-low)
            i b a;
      equal = λ i a b.
          one_further (λ k. lt ≤ k → not_after cmp_fn pivot (arr k) ≡ true) eq
            (λ k l m. s.equal k m l)
            (λ l.
              o.order.transitive pivot (arr lt) (arr eq) lt-high
                (equal-after (arr eq) (arr lt) o e))
            i b a;
      high = s.high;
      begun = s.begun;
      some_equal = omega (arith, s.some_equal);
      ended = omega (arith, more);
      inside = s.inside;
    }

    pub Sides-later :
        (n : ℕ)
        → eq ≤ gt
        → cmp_fn (arr eq) (arr lt) ≡ negsuc n
        → Sides lo hi pivot (swap_ele arr eq gt) lt eq (gt - 1)
    Sides-later n more e =
        let later : not_after cmp_fn pivot (arr eq) ≡ true =
          o.order.transitive pivot (arr lt) (arr eq) lt-high
            (later-after (arr eq) (arr lt) n o e) in
        record {
          low = λ i a b.
              swap_ele-holds (λ x. not_after cmp_fn x pivot ≡ true) arr eq gt i
                (λ u. absurd (omega (arith, u, b))) (λ u. absurd (omega (arith, u, b, more)))
                (λ u v. s.low i a b);
          equal = λ i a b.
              swap_ele-holds (λ x. not_after cmp_fn pivot x ≡ true) arr eq gt i
                (λ u. absurd (omega (arith, u, b))) (λ u. absurd (omega (arith, u, b, more)))
                (λ u v. s.equal i a b);
          high = λ i a b.
              swap_ele-holds (λ x. not_after cmp_fn pivot x ≡ true) arr eq gt i (λ u. at_eq u a)
                (λ u. later) (λ u v. s.high i (omega (arith, a, v)) b);
          begun = s.begun;
          some_equal = s.some_equal;
          ended = omega (arith, more);
          inside = omega (arith, s.inside);
        }
      where
        -- The exchanged element of `gt` is itself above the new end only if the two are the same.
        at_eq : {i : ℕ} → i ≡ eq → gt - 1 < i → not_after cmp_fn pivot (arr gt) ≡ true
        at_eq {i} u a =
            let same : eq ≡ gt = omega (arith, u, a, more, s.some_equal) in
            subst (λ k. not_after cmp_fn pivot (arr k) ≡ true) same
              (o.order.transitive pivot (arr lt) (arr eq) lt-high
                (later-after (arr eq) (arr lt) n o e))

    pub Sides-earlier :
        (n : ℕ)
        → eq ≤ gt
        → cmp_fn (arr eq) (arr lt) ≡ pos (suc n)
        → Sides lo hi pivot (swap_ele arr lt eq) (lt + 1) (eq + 1) gt
    Sides-earlier n more e = record {
      low = λ i a b.
          swap_ele-holds (λ x. not_after cmp_fn x pivot ≡ true) arr lt eq i
            (λ u.
              o.order.transitive (arr eq) (arr lt) pivot (pos-before (arr eq) (arr lt) (suc n) e)
                lt-low)
            (λ u. lt-low) (λ u v. s.low i a (omega (arith, b, v)));
      equal = λ i a b.
          swap_ele-holds (λ x. not_after cmp_fn pivot x ≡ true) arr lt eq i
            (λ u. absurd (omega (arith, u, a))) (λ u. lt-high)
            (λ u v. s.equal i (omega (arith, a)) (omega (arith, b, v)));
      high = λ i a b.
          swap_ele-holds (λ x. not_after cmp_fn pivot x ≡ true) arr lt eq i
            (λ u. absurd (omega (arith, u, a, more, s.some_equal)))
            (λ u. absurd (omega (arith, u, a, more))) (λ u v. s.high i a b);
      begun = omega (arith, s.begun);
      some_equal = omega (arith, s.some_equal);
      ended = omega (arith, more);
      inside = s.inside;
    }
