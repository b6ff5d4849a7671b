-- ===== src/Sort/Insertion.antt =====
-- The insertion sort of Algorithm/Sort/sort.h puts an array in order.
use code_snippet.Prelude.{
  ℕ, zero, suc, ◌<◌, ◌≡◌, refl, ◌∙◌, sym, ap, arith, Option, some, Bool, true, false, ℤ, List, [],
  ◌∷◌, ◌++◌, All, Bool-cases, inl, inr, update, ◌==◌,
}
use mathlib.Core.Path.{subst}
use code_snippet.Sort.{
  not_after, right_shift, insert_loop, ungarded_insert_sorted_arr, insert_sorted_arr,
}
use code_snippet.Sort.Order.{backwards, backwards-same, insert, Descending, IsOrder, insert-last}

module _ {A : Type 0} (cmp_fn : A → A → ℤ) where
  shift-beyond : (n j : ℕ) (arr : ℕ → A) → n < j → right_shift n arr j ≡ arr j
  unfolding right_shift
  shift-beyond zero j arr l = refl
  shift-beyond (suc n) j arr l =
      shift-beyond n j (update arr (suc n) (arr n)) (omega (arith, l)) ∙ ground (arith, l)

  shift-first : (n : ℕ) (arr : ℕ → A) → right_shift n arr 0 ≡ arr 0
  unfolding right_shift
  shift-first zero arr = refl
  shift-first (suc n) arr = shift-first n (update arr (suc n) (arr n)) ∙ ground arith

  shift-at : (n i : ℕ) (arr : ℕ → A) → i < n → right_shift n arr (suc i) ≡ arr i
  unfolding right_shift
  shift-at zero i arr l = absurd (omega (arith, l))
  shift-at (suc n) i arr l = elim (Bool-cases (i == n)) [
    | inl e ↦
        (let same : i ≡ n = ground (arith, e) in
          shift-beyond n (suc i) (update arr (suc n) (arr n)) (omega (arith, same))
          ∙ ground (arith, same)
          ∙ ap arr (sym same))
    | inr e ↦ shift-at n i (update arr (suc n) (arr n)) (ground (arith, e, l)) ∙ ground (arith, l)
  ]

  backwards-shifted :
      (n : ℕ) (x : A) (f arr : ℕ → A)
      → f 0 ≡ x
      → ((i : ℕ) → i < n → f (suc i) ≡ arr i)
      → backwards (suc n) f ≡ backwards n arr ++ (x ∷ [])
  backwards-shifted zero x f arr first rest = ap (λ (y : A). y ∷ []) first
  backwards-shifted (suc n) x f arr first rest =
      ap (λ (y : A). y ∷ backwards (suc n) f) (rest n (omega arith))
      ∙ ap (λ (l : List A). arr n ∷ l)
          (backwards-shifted n x f arr first (λ i l. rest i (omega (arith, l))))

  insert_loop-stops :
      (i : ℕ) (x : A) (arr : ℕ → A)
      → not_after cmp_fn (arr i) x ≡ true
      → insert_loop cmp_fn i x arr ≡ some (update arr (suc i) x)
  unfolding insert_loop
  insert_loop-stops zero x arr e = rw (insert_loop, e) refl
  insert_loop-stops (suc i) x arr e = rw (insert_loop, e) refl

  insert_loop-goes :
      (i : ℕ) (x : A) (arr : ℕ → A)
      → not_after cmp_fn (arr (suc i)) x ≡ false
      → insert_loop cmp_fn (suc i) x arr
        ≡ insert_loop cmp_fn i x (update arr (suc (suc i)) (arr (suc i)))
  unfolding insert_loop
  insert_loop-goes i x arr e = rw (insert_loop, e) refl

  insert-before :
      (x y : A) (ys : List A)
      → not_after cmp_fn y x ≡ true
      → insert cmp_fn x (y ∷ ys) ≡ x ∷ (y ∷ ys)
  unfolding insert
  insert-before x y ys e = rw e refl

  insert-later :
      (x y : A) (ys : List A)
      → not_after cmp_fn y x ≡ false
      → insert cmp_fn x (y ∷ ys) ≡ y ∷ insert cmp_fn x ys
  unfolding insert
  insert-later x y ys e = rw e refl

  -- What an insertion of `x` after the first `n` elements leaves.
  pub record Inserted (n : ℕ) (x : A) (arr : ℕ → A) (done : Option (ℕ → A)) : Type 0 where
    pub result : ℕ → A
    pub ran : done ≡ some result
    pub placed : backwards (suc n) result ≡ insert cmp_fn x (backwards n arr)
    pub beyond : (j : ℕ) → n < j → result j ≡ arr j

  stopped :
      (i : ℕ) (x : A) (arr : ℕ → A)
      → not_after cmp_fn (arr i) x ≡ true
      → Inserted (suc i) x arr (insert_loop cmp_fn i x arr)
  stopped i x arr e = record {
    result = update arr (suc i) x;
    ran = insert_loop-stops i x arr e;
    placed =
        ap (λ (y : A). y ∷ backwards (suc i) (update arr (suc i) x)) (ground arith)
        ∙ ap (λ (l : List A). x ∷ l)
            (backwards-same (suc i) (update arr (suc i) x) arr (λ j l. ground (arith, l)))
        ∙ sym (insert-before x (arr i) (backwards i arr) e);
    beyond = λ j l. ground (arith, l);
  }

  insert_loop-Inserted :
      (i : ℕ) (x : A) (arr : ℕ → A)
      → not_after cmp_fn (arr 0) x ≡ true
      → Inserted (suc i) x arr (insert_loop cmp_fn i x arr)
  insert_loop-Inserted zero x arr first = stopped zero x arr first
  insert_loop-Inserted (suc i) x arr first = elim (Bool-cases (not_after cmp_fn (arr (suc i)) x)) [
    | inl e ↦ stopped (suc i) x arr e
    | inr e ↦
        (let arr1 = update arr (suc (suc i)) (arr (suc i)) in
          let r =
            insert_loop-Inserted i x arr1
              (subst (λ y. not_after cmp_fn y x ≡ true) (ground arith) first) in
          record {
            result = r.result;
            ran = insert_loop-goes i x arr e ∙ r.ran;
            placed =
                ap (λ (y : A). y ∷ backwards (suc (suc i)) r.result)
                  (r.beyond (suc (suc i)) (omega arith) ∙ ground arith)
                ∙ ap (λ (l : List A). arr (suc i) ∷ l)
                    (r.placed
                      ∙ ap (λ l. insert cmp_fn x l)
                          (backwards-same (suc i) arr1 arr (λ j l. ground (arith, l))))
                ∙ sym (insert-later x (arr (suc i)) (backwards (suc i) arr) e);
            beyond = λ j l. r.beyond j (omega (arith, l)) ∙ ground (arith, l);
          })
  ]

  -- The first element of the array stands last in the list.
  first-of : (P : A → Type 0) (n : ℕ) (arr : ℕ → A) → All P (backwards (suc n) arr) → P (arr 0)
  first-of P zero arr a = a.0
  first-of P (suc n) arr a = first-of P n arr a.1

  every_later :
      (n : ℕ) (x : A) (arr : ℕ → A)
      → IsOrder cmp_fn
      → Descending cmp_fn (backwards (suc n) arr)
      → not_after cmp_fn (arr 0) x ≡ false
      → All (λ y. not_after cmp_fn y x ≡ false) (backwards (suc n) arr)
  every_later zero x arr o d e = (e, tt)
  every_later (suc n) x arr o d e = (
    later (arr (suc n)) (first-of (λ y. not_after cmp_fn y (arr (suc n)) ≡ true) n arr d.0),
    every_later n x arr o d.1 e,
  )
    where
      later : (y : A) → not_after cmp_fn (arr 0) y ≡ true → not_after cmp_fn y x ≡ false
      later y b = elim (Bool-cases (not_after cmp_fn y x)) [
        | inl c ↦ absurd (differ (o.transitive (arr 0) y x b c) e)
        | inr c ↦ c
      ]
        where
          differ : {b : Bool} → b ≡ true → ¬ (b ≡ false)
          differ {b} p q = ground (arith, p, q)

  ungarded-loop :
      (last : ℕ) (arr : ℕ → A)
      → not_after cmp_fn (arr 0) (arr (suc last)) ≡ true
      → ungarded_insert_sorted_arr cmp_fn last arr ≡ insert_loop cmp_fn last (arr (suc last)) arr
  unfolding ungarded_insert_sorted_arr
  ungarded-loop last arr e = rw (ungarded_insert_sorted_arr, e) refl

  insert_sorted-loop :
      (last : ℕ) (arr : ℕ → A)
      → not_after cmp_fn (arr 0) (arr (suc last)) ≡ true
      → insert_sorted_arr cmp_fn last arr ≡ insert_loop cmp_fn last (arr (suc last)) arr
  unfolding insert_sorted_arr
  insert_sorted-loop last arr e = rw (insert_sorted_arr, e) (ungarded-loop last arr e)

  insert_sorted-shift :
      (last : ℕ) (arr : ℕ → A)
      → not_after cmp_fn (arr 0) (arr (suc last)) ≡ false
      → insert_sorted_arr cmp_fn last arr
        ≡ some (update (right_shift (suc last) arr) 0 (arr (suc last)))
  unfolding insert_sorted_arr
  insert_sorted-shift last arr e = rw (insert_sorted_arr, e) refl

  pub insert_sorted-Inserted :
      (last : ℕ) (arr : ℕ → A)
      → IsOrder cmp_fn
      → Descending cmp_fn (backwards (suc last) arr)
      → Inserted (suc last) (arr (suc last)) arr (insert_sorted_arr cmp_fn last arr)
  insert_sorted-Inserted last arr o d =
      elim (Bool-cases (not_after cmp_fn (arr 0) (arr (suc last)))) [
        | inl e ↦
            (let r = insert_loop-Inserted last (arr (suc last)) arr e in
              record {
                result = r.result;
                ran = insert_sorted-loop last arr e ∙ r.ran;
                placed = r.placed;
                beyond = r.beyond;
              })
        | inr e ↦ record {
          result = update (right_shift (suc last) arr) 0 (arr (suc last));
          ran = insert_sorted-shift last arr e;
          placed =
              backwards-shifted (suc last) (arr (suc last))
                (update (right_shift (suc last) arr) 0 (arr (suc last))) arr (ground arith)
                (λ i l. ground arith ∙ shift-at (suc last) i arr l)
              ∙ sym (
                  insert-last cmp_fn (arr (suc last)) (backwards (suc last) arr)
                    (every_later last (arr (suc last)) arr o d e));
          beyond = λ j l. ground (arith, l) ∙ shift-beyond (suc last) j arr l;
        }
      ]
