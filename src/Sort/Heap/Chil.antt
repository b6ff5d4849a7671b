-- ===== src/Sort/Heap/Chil.antt =====
-- The children of an element of the heap of Algorithm/Sort/sort.h, and the greater of them.
use code_snippet.Prelude.{
  ℕ, suc, ◌+◌, ◌-◌, ◌*◌, ◌≤◌, ◌<◌, ◌≡◌, refl, sym, arith, Option, some, true, false, ℤ, ◌⊎◌, inl,
  inr, ◌≢◌, ltb, Bool-cases,
}
use mathlib.Core.Path.{subst}
use code_snippet.Sort.{not_after, before}
use code_snippet.Sort.Moves.{Moved, IsThreeWay}
use code_snippet.Sort.Heap.{greater_chil, left_chil}

abbrev pub IsChil : ℕ → ℕ → Type 0
IsChil i c = (c ≡ 2 * i + 1) ⊎ (c ≡ 2 * i + 2)

pub one_parent : (i j c : ℕ) → IsChil i c → IsChil j c → i ≡ j
one_parent i j c u v = ground (arith, u, v)

pub chil-above : (i c : ℕ) → IsChil i c → i < c
chil-above i c u = ground (arith, u)

module _ {A : Type 0} (cmp_fn : A → A → ℤ) where
  -- No child of an element from `k` on is after it.
  unfoldable pub HeapFrom : (k n : ℕ) (v : ℕ → A) → Type 0
  HeapFrom k n v = (i c : ℕ) → k ≤ i → IsChil i c → c < n → not_after cmp_fn (v c) (v i) ≡ true

  -- As before, but for the children of `root`, which are not after the parent of `root`.
  pub record Sinking (k n root : ℕ) (v : ℕ → A) : Type 0 where
    pub edges :
        (i c : ℕ) → k ≤ i → i ≢ root → IsChil i c → c < n → not_after cmp_fn (v c) (v i) ≡ true
    pub bridged :
        (i c : ℕ)
        → k ≤ i
        → IsChil i root
        → IsChil root c
        → c < n
        → not_after cmp_fn (v c) (v i) ≡ true

  pub record Sunk (k last : ℕ) (v : ℕ → A) (done : Option (ℕ → A)) : Type 0 where
    pub result : ℕ → A
    pub ran : done ≡ some result
    pub heap : HeapFrom k (suc last) result
    pub moved : Moved 0 last v result

  pub record Greater (n root : ℕ) (arr : ℕ → A) (chil : ℕ) : Type 0 where
    pub is_chil : IsChil root chil
    pub inside : chil < n
    pub greatest : (c : ℕ) → IsChil root c → c < n → not_after cmp_fn (arr c) (arr chil) ≡ true

  pub same-not_after : (a : A) → IsThreeWay cmp_fn → not_after cmp_fn a a ≡ true
  same-not_after a o = elim (Bool-cases (not_after cmp_fn a a)) [
    | inl e ↦ e
    | inr e ↦ o.order.total a a e
  ]

  pub before-not_after : (a b : A) → before cmp_fn a b ≡ true → not_after cmp_fn a b ≡ true
  before-not_after a b e = ground (arith, e)

  pub greater_chil-only :
      (n root : ℕ) (arr : ℕ → A)
      → ltb (left_chil root) (n - 1) ≡ false
      → greater_chil cmp_fn n root arr ≡ left_chil root
  unfolding greater_chil
  greater_chil-only n root arr e = rw e refl

  pub greater_chil-right :
      (n root : ℕ) (arr : ℕ → A)
      → ltb (left_chil root) (n - 1) ≡ true
      → before cmp_fn (arr (left_chil root)) (arr (left_chil root + 1)) ≡ true
      → greater_chil cmp_fn n root arr ≡ left_chil root + 1
  unfolding greater_chil
  greater_chil-right n root arr e f = rw (e, f) refl

  pub greater_chil-left :
      (n root : ℕ) (arr : ℕ → A)
      → ltb (left_chil root) (n - 1) ≡ true
      → before cmp_fn (arr (left_chil root)) (arr (left_chil root + 1)) ≡ false
      → greater_chil cmp_fn n root arr ≡ left_chil root
  unfolding greater_chil
  greater_chil-left n root arr e f = rw (e, f) refl

  -- A test of the two children of an element.
  pub each_chil :
      (Q : ℕ → Type 0) (root c : ℕ)
      → IsChil root c
      → (c ≡ 2 * root + 1 → Q (2 * root + 1))
      → (c ≡ 2 * root + 2 → Q (2 * root + 1 + 1))
      → Q c
  each_chil Q root c (inl e) left right = subst Q (sym e) (left e)
  each_chil Q root c (inr e) left right =
      let further : 2 * root + 1 + 1 ≡ c = omega (arith, e) in subst Q further (right e)

  pub greater_chil-Greater :
      (n root : ℕ) (arr : ℕ → A)
      → IsThreeWay cmp_fn
      → left_chil root < n
      → Greater n root arr (greater_chil cmp_fn n root arr)
  greater_chil-Greater n root arr o l =
      chosen (Bool-cases (ltb (left_chil root) (n - 1)))
        (Bool-cases (before cmp_fn (arr (left_chil root)) (arr (left_chil root + 1))))
    where
      left_first :
          (right : 2 * root + 2 < n
            → not_after cmp_fn (arr (2 * root + 1 + 1)) (arr (left_chil root)) ≡ true)
          → Greater n root arr (left_chil root)
      left_first right = record {
        is_chil = inl refl;
        inside = l;
        greatest = λ c u m.
            each_chil (λ d. not_after cmp_fn (arr d) (arr (left_chil root)) ≡ true) root c u
              (λ e. same-not_after (arr (left_chil root)) o) (λ e. right (omega (arith, e, m)));
      }

      chosen :
          (ltb (left_chil root) (n - 1) ≡ true) ⊎ (ltb (left_chil root) (n - 1) ≡ false)
          → (before cmp_fn (arr (left_chil root)) (arr (left_chil root + 1)) ≡ true)
            ⊎ (before cmp_fn (arr (left_chil root)) (arr (left_chil root + 1)) ≡ false)
          → Greater n root arr (greater_chil cmp_fn n root arr)
      chosen (inr e) f =
          subst (Greater n root arr) (sym (greater_chil-only n root arr e))
            (left_first (λ m. absurd (ground (arith, e, m))))
      chosen (inl e) (inr f) =
          subst (Greater n root arr) (sym (greater_chil-left n root arr e f))
            (left_first (λ m. o.opposite (arr (left_chil root)) (arr (left_chil root + 1)) f))
      chosen (inl e) (inl f) =
          subst (Greater n root arr) (sym (greater_chil-right n root arr e f)) (record {
            is_chil = inr (omega arith);
            inside = ground (arith, e);
            greatest = λ c u m.
                each_chil (λ d. not_after cmp_fn (arr d) (arr (left_chil root + 1)) ≡ true) root c u
                  (λ g. before-not_after (arr (left_chil root)) (arr (left_chil root + 1)) f)
                  (λ g. same-not_after (arr (left_chil root + 1)) o);
          })
