-- ===== src/Sort/Moves.antt =====
-- What a sort of a part of an array does to the array: it moves elements inside the part.
use code_snippet.Prelude.{
  ℕ, zero, suc, ◌+◌, ◌≤◌, ◌<◌, ◌≡◌, refl, ◌∙◌, arith, Bool, true, false, ℤ, if◌then◌else◌, ◌≢◌,
  ◌==◌, ◌⊎◌, ltb, ltb→lt, ap, Option, some, Bool-cases, inl, inr, update,
}
use mathlib.Core.Path.{subst}
use code_snippet.Sort.{before, not_after}
use code_snippet.Sort.Order.{backwards, backwards-same, count, IsOrder}

-- What the sorts by exchange need of cmp_fn: it orders, and if a is not before b then b is not after a.
pub record IsThreeWay {A : Type 0} (cmp_fn : A → A → ℤ) : Type 0 where
  pub order : IsOrder cmp_fn
  pub opposite : (a b : A) → before cmp_fn a b ≡ false → not_after cmp_fn b a ≡ true

pub ==→≡ : (a b : ℕ) → (a == b) ≡ true → a ≡ b
==→≡ a b e = ground (arith, e)

abbrev tally : Bool → ℕ
tally b = if b then 1 else 0

module _ {A : Type 0} where
  -- Only elements from `lo` to `hi` are moved, and to places from `lo` to `hi`: a test that holds of all of
  -- them holds of them afterwards, and each test holds of as many elements as before.
  pub record Moved (lo hi : ℕ) (arr arr' : ℕ → A) : Type 0 where
    pub kept :
        (p : A → Bool)
        → ((i : ℕ) → lo ≤ i → i ≤ hi → p (arr i) ≡ true)
        → (i : ℕ) → lo ≤ i
        → i ≤ hi
        → p (arr' i) ≡ true
    pub below : (j : ℕ) → j < lo → arr' j ≡ arr j
    pub above : (j : ℕ) → hi < j → arr' j ≡ arr j
    pub counted :
        (p : A → Bool) (n : ℕ) → hi < n → count p (backwards n arr') ≡ count p (backwards n arr)

  pub Moved-refl : (lo hi : ℕ) (arr : ℕ → A) → Moved lo hi arr arr
  Moved-refl lo hi arr = record {
    kept = λ p h i a b. h i a b;
    below = λ j l. refl;
    above = λ j l. refl;
    counted = λ p n l. refl;
  }

  pub Moved-trans :
      {lo hi : ℕ} {arr arr1 arr2 : ℕ → A}
      → Moved lo hi arr arr1
      → Moved lo hi arr1 arr2
      → Moved lo hi arr arr2
  Moved-trans m n = record {
    kept = λ p h i a b. n.kept p (m.kept p h) i a b;
    below = λ j l. n.below j l ∙ m.below j l;
    above = λ j l. n.above j l ∙ m.above j l;
    counted = λ p k l. n.counted p k l ∙ m.counted p k l;
  }

  -- A move in a part is a move in a larger part.
  pub Moved-wider :
      {lo hi : ℕ} {arr arr' : ℕ → A} (lo' hi' : ℕ)
      → lo' ≤ lo
      → hi ≤ hi'
      → lo ≤ hi + 1
      → Moved lo hi arr arr'
      → Moved lo' hi' arr arr'
  Moved-wider {lo} {hi} {arr} {arr'} lo' hi' a b c m = record {
    kept = λ p h i d e. kept_wider p h i d e (Bool-cases (ltb i lo)) (Bool-cases (ltb hi i));
    below = λ j l. m.below j (omega (arith, l, a));
    above = λ j l. m.above j (omega (arith, l, b));
    counted = λ p n l. m.counted p n (omega (arith, l, b));
  }
    where
      kept_wider :
          (p : A → Bool)
          → ((i : ℕ) → lo' ≤ i → i ≤ hi' → p (arr i) ≡ true)
          → (i : ℕ) → lo' ≤ i
          → i ≤ hi'
          → (ltb i lo ≡ true) ⊎ (ltb i lo ≡ false)
          → (ltb hi i ≡ true) ⊎ (ltb hi i ≡ false)
          → p (arr' i) ≡ true
      kept_wider p h i d e (inl u) v = ap p (m.below i (ltb→lt i lo u)) ∙ h i d e
      kept_wider p h i d e (inr u) (inl v) = ap p (m.above i (ltb→lt hi i v)) ∙ h i d e
      kept_wider p h i d e (inr u) (inr v) =
          m.kept p (λ j f g. h j (omega (arith, a, f)) (omega (arith, b, g))) i (ground (arith, u))
            (ground (arith, v))

  count-update :
      (p : A → Bool) (n i : ℕ) (f : ℕ → A) (x : A)
      → i < n
      → count p (backwards n (update f i x)) + tally (p (f i))
        ≡ count p (backwards n f) + tally (p x)
  unfolding count
  count-update p zero i f x l = absurd (omega (arith, l))
  count-update p (suc n) i f x l = elim (Bool-cases (i == n)) [
    | inl e ↦
        (let same : i ≡ n = ground (arith, e) in
          subst
            (λ k.
              tally (p (update f i x k)) + count p (backwards n (update f i x)) + tally (p (f i))
              ≡ tally (p (f k)) + count p (backwards n f) + tally (p x))
            same
            (last_one i
              (ap (count p) (backwards-same n (update f i x) f (λ j b. ground (arith, same, b))))))
    | inr e ↦ ground (arith, e, l, count-update p n i f x (ground (arith, e, l)))
  ]
    where
      last_one :
          (k : ℕ)
          → count p (backwards n (update f i x)) ≡ count p (backwards n f)
          → tally (p (update f i x i)) + count p (backwards n (update f i x)) + tally (p (f i))
            ≡ tally (p (f i)) + count p (backwards n f) + tally (p x)
      last_one k e = ground (arith, e)

  -- An exchange of two elements of the part.
  pub Moved-swap :
      (lo hi i j : ℕ) (f g : ℕ → A)
      → lo ≤ i
      → i ≤ hi
      → lo ≤ j
      → j ≤ hi
      → g i ≡ f j
      → g j ≡ f i
      → ((k : ℕ) → k ≢ i → k ≢ j → g k ≡ f k)
      → Moved lo hi f g
  Moved-swap lo hi i j f g a b c d at_i at_j rest = record {
    kept = λ p h k e l. kept_at p h k e l (Bool-cases (k == i)) (Bool-cases (k == j));
    below = λ k l. rest k (omega (arith, l, a)) (omega (arith, l, c));
    above = λ k l. rest k (omega (arith, l, b)) (omega (arith, l, d));
    counted = λ p n l.
        ap (count p) (
          backwards-same n g (update (update f i (f j)) j (f i))
            (λ k m. like k (Bool-cases (k == i)) (Bool-cases (k == j))))
        ∙ twice p _ _ _ (count-update p n j (update f i (f j)) (f i) (omega (arith, l, d)))
            (count-update p n i f (f j) (omega (arith, l, b)));
  }
    where
      kept_at :
          (p : A → Bool)
          → ((k : ℕ) → lo ≤ k → k ≤ hi → p (f k) ≡ true)
          → (k : ℕ) → lo ≤ k
          → k ≤ hi
          → ((k == i) ≡ true) ⊎ ((k == i) ≡ false)
          → ((k == j) ≡ true) ⊎ ((k == j) ≡ false)
          → p (g k) ≡ true
      kept_at p h k e l (inl u) v = ap (λ m. p (g m)) (==→≡ k i u) ∙ ap p at_i ∙ h j c d
      kept_at p h k e l (inr u) (inl v) = ap (λ m. p (g m)) (==→≡ k j v) ∙ ap p at_j ∙ h i a b
      kept_at p h k e l (inr u) (inr v) =
          ap p (rest k (ground (arith, u)) (ground (arith, v))) ∙ h k e l

      at_both : update f i (f j) j ≡ f j
      at_both = ground arith

      like :
          (k : ℕ)
          → ((k == i) ≡ true) ⊎ ((k == i) ≡ false)
          → ((k == j) ≡ true) ⊎ ((k == j) ≡ false)
          → g k ≡ update (update f i (f j)) j (f i) k
      like k (inl u) (inl v) = ap g (==→≡ k j v) ∙ at_j ∙ ground (arith, v)
      like k (inl u) (inr v) = ap g (==→≡ k i u) ∙ at_i ∙ ground (arith, u, v)
      like k (inr u) (inl v) = ap g (==→≡ k j v) ∙ at_j ∙ ground (arith, v)
      like k (inr u) (inr v) = rest k (ground (arith, u)) (ground (arith, v)) ∙ ground (arith, u, v)

      twice :
          (p : A → Bool) (m1 m2 m3 : ℕ)
          → m1 + tally (p (update f i (f j) j)) ≡ m2 + tally (p (f i))
          → m2 + tally (p (f i)) ≡ m3 + tally (p (f j))
          → m1 ≡ m3
      twice p m1 m2 m3 u v =
          let w : tally (p (update f i (f j) j)) ≡ tally (p (f j)) =
            ap (λ (y : A). tally (p y)) at_both in
          omega (arith, u, v, w)

  -- The elements from `lo` to `hi` are put in order.
  pub record Ordered (cmp_fn : A → A → ℤ) (lo hi : ℕ) (arr : ℕ → A) (done : Option (ℕ → A))
      : Type 0 where
    pub result : ℕ → A
    pub ran : done ≡ some result
    pub moved : Moved lo hi arr result
    pub ordered :
        (i j : ℕ) → lo ≤ i → i < j → j ≤ hi → not_after cmp_fn (result i) (result j) ≡ true
