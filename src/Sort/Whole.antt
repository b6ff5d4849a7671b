-- ===== src/Sort/Whole.antt =====
-- The insertion sort of Algorithm/Sort/sort.h as a whole.
use code_snippet.Prelude.{
  ℕ, zero, suc, ◌+◌, ◌-◌, ◌≤◌, ◌≡◌, refl, ◌∙◌, sym, ap, arith, Option, some, Bool, ℤ, if◌then◌else◌,
  List, ◌∷◌,
}
use mathlib.Core.Path.{subst}
use code_snippet.Sort.{insert_sorted_arr, sort_loop, insertion_sort}
use code_snippet.Sort.Order.{backwards, count, Descending, IsOrder, count-insert, Descending-insert}
use code_snippet.Sort.Insertion.{insert_sorted-Inserted}

module _ {A : Type 0} (cmp_fn : A → A → ℤ) where
  -- The first `n` elements are in order, and they are those of `arr`.
  record Sorted (n : ℕ) (arr : ℕ → A) (done : Option (ℕ → A)) : Type 0 where
    pub result : ℕ → A
    pub ran : done ≡ some result
    pub ordered : Descending cmp_fn (backwards n result)
    pub counted : (p : A → Bool) → count p (backwards n result) ≡ count p (backwards n arr)
    pub beyond : (j : ℕ) → n ≤ j → result j ≡ arr j

  sort_loop-goes :
      (rounds last : ℕ) (arr arr' : ℕ → A)
      → insert_sorted_arr cmp_fn last arr ≡ some arr'
      → sort_loop cmp_fn (suc rounds) last arr ≡ sort_loop cmp_fn rounds (suc last) arr'
  unfolding sort_loop
  sort_loop-goes rounds last arr arr' e = rw (sort_loop, e) refl

  count-more :
      (p : A → Bool) (x : A) (xs ys : List A)
      → count p xs ≡ count p ys
      → count p (x ∷ xs) ≡ count p (x ∷ ys)
  unfolding count
  count-more p x xs ys e = ap (λ c. (if p x then 1 else 0) + c) e

  none_more : (n : ℕ) → n ≡ 0 + n
  none_more n = omega arith

  one_more : (rounds n : ℕ) → suc (rounds + n) ≡ suc rounds + n
  one_more rounds n = omega arith

  count-beyond :
      (rounds n : ℕ) (p : A → Bool) (f g : ℕ → A)
      → count p (backwards n f) ≡ count p (backwards n g)
      → ((j : ℕ) → n ≤ j → f j ≡ g j)
      → count p (backwards (rounds + n) f) ≡ count p (backwards (rounds + n) g)
  count-beyond zero n p f g e same =
      subst (λ m. count p (backwards m f) ≡ count p (backwards m g)) (none_more n) e
  count-beyond (suc rounds) n p f g e same =
      subst (λ m. count p (backwards m f) ≡ count p (backwards m g)) (one_more rounds n)
        (count-more p (f (rounds + n)) (backwards (rounds + n) f) (backwards (rounds + n) g)
            (count-beyond rounds n p f g e same)
          ∙ ap (λ (x : A). count p (x ∷ backwards (rounds + n) g))
              (same (rounds + n) (omega arith)))

  sort_loop-Sorted :
      (rounds last : ℕ) (arr : ℕ → A)
      → IsOrder cmp_fn
      → Descending cmp_fn (backwards (suc last) arr)
      → Sorted (rounds + suc last) arr (sort_loop cmp_fn rounds last arr)
  unfolding sort_loop
  sort_loop-Sorted zero last arr o d = record {
    result = arr;
    ran = refl;
    ordered = subst (λ m. Descending cmp_fn (backwards m arr)) (none_more (suc last)) d;
    counted = λ p. refl;
    beyond = λ j l. refl;
  }
  sort_loop-Sorted (suc rounds) last arr o d =
      let i = insert_sorted-Inserted cmp_fn last arr o d in
      let d' : Descending cmp_fn (backwards (suc (suc last)) i.result) =
        subst (λ l. Descending cmp_fn l) (sym i.placed)
          (Descending-insert cmp_fn (arr (suc last)) (backwards (suc last) arr) o d) in
      let r = sort_loop-Sorted rounds (suc last) i.result o d' in
      let size : rounds + suc (suc last) ≡ suc rounds + suc last = omega arith in
      subst (λ m. Sorted m arr (sort_loop cmp_fn (suc rounds) last arr)) size
        (record {
          result = r.result;
          ran = sort_loop-goes rounds last arr i.result i.ran ∙ r.ran;
          ordered = r.ordered;
          counted = λ p.
              r.counted p
              ∙ count-beyond rounds (suc (suc last)) p i.result arr
                  (ap (λ l. count p l) i.placed
                    ∙ count-insert cmp_fn p (arr (suc last)) (backwards (suc last) arr))
                  (λ j l. i.beyond j (omega (arith, l)));
          beyond = λ j l. r.beyond j l ∙ i.beyond j (omega (arith, l));
        })

  -- With a total and transitive cmp_fn the sort ends, with no failed assertion and no step before the array:
  -- the first `n` elements are then in order, each test `p` holds of as many of them as before, and an
  -- element `j` past them is as before.
  pub insertion_sort-Sorted :
      (n : ℕ) (arr : ℕ → A) (p : A → Bool) (j : ℕ)
      → IsOrder cmp_fn
      → n ≤ j
      → (arr' : ℕ → A) × (insertion_sort cmp_fn n arr ≡ some arr')
        × Descending cmp_fn (backwards n arr')
        × (count p (backwards n arr') ≡ count p (backwards n arr))
        × (arr' j ≡ arr j)
  unfolding insertion_sort sort_loop
  insertion_sort-Sorted zero arr p j o l = (arr, refl, tt, refl, refl)
  insertion_sort-Sorted (suc n) arr p j o l =
      let r = sort_loop-Sorted n 0 arr o (tt, tt) in
      let size : n + 1 ≡ suc n = omega arith in
      let rounds : suc n - 1 ≡ n = omega arith in
      let s = subst (λ m. Sorted m arr (sort_loop cmp_fn n 0 arr)) size r in
      (
        s.result,
        ap (λ m. sort_loop cmp_fn m 0 arr) rounds ∙ s.ran,
        s.ordered,
        s.counted p,
        s.beyond j l,
      )
