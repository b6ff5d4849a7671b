-- ===== src/Sort/Intro/Whole.antt =====
-- The depth limit and the short arrays of the introspective sort of Algorithm/Sort/sort.h.
use code_snippet.Prelude.{
  ℕ, zero, suc, ◌+◌, ◌-◌, ◌*◌, ◌/◌, ◌^◌, ◌≤◌, ◌<◌, ◌≡◌, refl, ◌∙◌, ap, arith, some, Bool, true,
  false, ℤ, inl, inr, ltb, leb, ◌==◌, Bool-cases,
}
use mathlib.Core.Path.{subst}
use code_snippet.Sort.{insertion_sort}
use code_snippet.Sort.Order.{backwards, count, Descending, IsOrder}
use code_snippet.Sort.Whole.{insertion_sort-Sorted}
use code_snippet.Sort.Intro.{lg_loop, lg, intro_part, intro_insert_sort, intro_sort}
use native.Mathlib.Nat.{pow-succ'}

two-suc : (k : ℕ) → 2 ^ (k + 1) ≡ 2 * 2 ^ k
two-suc k = let next : k + 1 ≡ suc k = omega arith in ap (λ e. 2 ^ e) next ∙ pow-succ' 2 k

lg_loop-more :
    (fuel n k : ℕ) → ltb 1 n ≡ true → lg_loop (suc fuel) n k ≡ lg_loop fuel (n / 2) (k + 1)
unfolding lg_loop
lg_loop-more fuel n k e = rw (lg_loop, e) refl

lg_loop-last : (fuel n k : ℕ) → ltb 1 n ≡ false → lg_loop (suc fuel) n k ≡ k
unfolding lg_loop
lg_loop-last fuel n k e = rw (lg_loop, e) refl

lg_loop-bits :
    (fuel n k : ℕ)
    → 0 < n
    → n ≤ fuel
    → (r : ℕ) × (lg_loop fuel n k ≡ k + r) × (2 ^ r ≤ n) × (n < 2 ^ (r + 1))
lg_loop-bits zero n k l m = absurd (omega (arith, l, m))
lg_loop-bits (suc fuel) n k l m = elim (Bool-cases (ltb 1 n)) [
  | inl e ↦
      (let h = lg_loop-bits fuel (n / 2) (k + 1) (ground (arith, e)) (ground (arith, e, m)) in
        let t = two-suc h.0 in
        let t1 = two-suc (h.0 + 1) in
        let a = h.2 in
        let b = h.3 in
        (
          h.0 + 1,
          lg_loop-more fuel n k e ∙ h.1 ∙ omega arith,
          omega (arith, t, a),
          omega (arith, t1, b),
        ))
  | inr e ↦ (0, lg_loop-last fuel n k e ∙ omega arith, ground (arith, l), ground (arith, e))
]

-- For `n` not 0, 2 to the power of the result is at most `n`, and 2 to the next power is more.
pub lg_lem : (n : ℕ) → 0 < n → (2 ^ lg n ≤ n) × (n < 2 ^ (lg n + 1))
unfolding lg
lg_lem n l =
    let h = lg_loop-bits n n 0 l (omega arith) in
    let same : h.0 ≡ lg_loop n n 0 = omega (arith, h.1) in
    (subst (λ r. 2 ^ r ≤ n) same h.2, subst (λ r. n < 2 ^ (r + 1)) same h.3)

module _ {A : Type 0} (cmp_fn : A → A → ℤ) where
  intro_part-short :
      (size depth lo hi : ℕ) (arr : ℕ → A)
      → leb (hi + 1 - lo) 16 ≡ true
      → intro_part cmp_fn size depth arr lo hi ≡ some arr
  unfolding intro_part
  intro_part-short size zero lo hi arr e = rw (intro_part, e) refl
  intro_part-short size (suc depth) lo hi arr e = rw (intro_part, e) refl

  insert-short :
      (n : ℕ) (arr : ℕ → A)
      → ltb 16 n ≡ false
      → intro_insert_sort cmp_fn n arr ≡ insertion_sort cmp_fn n arr
  unfolding intro_insert_sort
  insert-short n arr e = rw e refl

  intro_sort-one : (size : ℕ) (arr : ℕ → A) → intro_sort cmp_fn size 1 arr ≡ some arr
  unfolding intro_sort
  intro_sort-one size arr = refl

  intro_sort-more :
      (size last : ℕ) (arr : ℕ → A)
      → intro_part cmp_fn size (lg (suc (suc last)) * 2) arr 0 (suc last) ≡ some arr
      → intro_sort cmp_fn size (suc (suc last)) arr ≡ intro_insert_sort cmp_fn (suc (suc last)) arr
  unfolding intro_sort
  intro_sort-more size last arr e =
      let more : (suc (suc last) == 1) ≡ false = ground arith in rw (more, e) refl

  -- With a total and transitive cmp_fn and at most 16 elements the sort ends: the elements are then in order,
  -- each test `p` holds of as many of them as before, and an element `j` past them is as before.
  pub intro_sort-Descending :
      (size n : ℕ) (arr : ℕ → A) (p : A → Bool) (j : ℕ)
      → IsOrder cmp_fn
      → n ≤ 16
      → n ≤ j
      → (arr' : ℕ → A) × (intro_sort cmp_fn size n arr ≡ some arr')
        × Descending cmp_fn (backwards n arr')
        × (count p (backwards n arr') ≡ count p (backwards n arr))
        × (arr' j ≡ arr j)
  unfolding intro_sort
  intro_sort-Descending size zero arr p j o l m =
      let s = insertion_sort-Sorted cmp_fn 0 arr p j o m in
      (s.0, insert-short 0 arr (ground arith) ∙ s.1, s.2, s.3, s.4)
  intro_sort-Descending size (suc zero) arr p j o l m =
      (arr, intro_sort-one size arr, (tt, tt), refl, refl)
  intro_sort-Descending size (suc (suc last)) arr p j o l m =
      let s = insertion_sort-Sorted cmp_fn (suc (suc last)) arr p j o m in
      (
        s.0,
        intro_sort-more size last arr
              (intro_part-short size (lg (suc (suc last)) * 2) 0 (suc last) arr (ground (arith, l)))
            ∙ insert-short (suc (suc last)) arr (ground (arith, l))
            ∙ s.1,
        s.2,
        s.3,
        s.4,
      )
