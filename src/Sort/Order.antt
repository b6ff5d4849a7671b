-- ===== src/Sort/Order.antt =====
-- The list of the first elements of an array, the last one first, and insertion into it.
use code_snippet.Prelude.{
  ℕ, zero, suc, ◌+◌, ◌<◌, ◌≤◌, ◌==◌, ◌≡◌, refl, ◌∙◌, ap, arith, Bool, true, false, ℤ, if◌then◌else◌,
  List, [], ◌∷◌, ◌++◌, All, Bool-cases, inl, inr,
}
use code_snippet.Sort.{not_after}

abbrev pub backwards : {A : Type 0} → ℕ → (ℕ → A) → List A
backwards zero arr = []
backwards (suc n) arr = arr n ∷ backwards n arr

pub backwards-same :
    {A : Type 0} (n : ℕ) (f g : ℕ → A)
    → ((i : ℕ) → i < n → f i ≡ g i)
    → backwards n f ≡ backwards n g
backwards-same zero f g same = refl
backwards-same {A} (suc n) f g same =
    ap (λ (x : A). x ∷ backwards n f) (same n (omega arith))
    ∙ ap (λ (l : List A). g n ∷ l) (backwards-same n f g (λ i l. same i (omega (arith, l))))

unfoldable pub insert : {A : Type 0} → (A → A → ℤ) → A → List A → List A
insert cmp_fn x [] = x ∷ []
insert cmp_fn x (y ∷ ys) = if not_after cmp_fn y x then x ∷ (y ∷ ys) else y ∷ insert cmp_fn x ys

unfoldable pub count : {A : Type 0} → (A → Bool) → List A → ℕ
count p [] = 0
count p (x ∷ xs) = (if p x then 1 else 0) + count p xs

-- No element is after the one before it in the list.
abbrev pub Descending : {A : Type 0} → (A → A → ℤ) → List A → Type 0
Descending cmp_fn [] = Unit
Descending cmp_fn (x ∷ xs) = All (λ y. not_after cmp_fn y x ≡ true) xs × Descending cmp_fn xs

pub count-insert :
    {A : Type 0} (cmp_fn : A → A → ℤ) (p : A → Bool) (x : A) (ys : List A)
    → count p (insert cmp_fn x ys) ≡ count p (x ∷ ys)
unfolding count insert
count-insert cmp_fn p x [] = refl
count-insert cmp_fn p x (y ∷ ys) = elim (Bool-cases (not_after cmp_fn y x)) [
  | inl e ↦ rw e refl
  | inr e ↦ rw e (
      swap (if p y then 1 else 0) (if p x then 1 else 0) (count p ys) (count p (insert cmp_fn x ys))
        (count-insert cmp_fn p x ys))
]
  where
    swap : (a b c d : ℕ) → d ≡ b + c → a + d ≡ b + (a + c)
    swap a b c d e = omega (arith, e)

-- What the sort needs of cmp_fn: of two elements one is not after the other, and it is transitive.
pub record IsOrder {A : Type 0} (cmp_fn : A → A → ℤ) : Type 0 where
  pub total : (a b : A) → not_after cmp_fn a b ≡ false → not_after cmp_fn b a ≡ true
  pub transitive :
      (a b c : A)
      → not_after cmp_fn a b ≡ true
      → not_after cmp_fn b c ≡ true
      → not_after cmp_fn a c ≡ true

All-insert :
    {A : Type 0} (cmp_fn : A → A → ℤ) (P : A → Type 0) (x : A) (ys : List A)
    → P x
    → All P ys
    → All P (insert cmp_fn x ys)
unfolding insert
All-insert cmp_fn P x [] px a = (px, tt)
All-insert cmp_fn P x (y ∷ ys) px a = elim (Bool-cases (not_after cmp_fn y x)) [
  | inl e ↦ rw e (px, a)
  | inr e ↦ rw e (a.0, All-insert cmp_fn P x ys px a.1)
]

All-before :
    {A : Type 0} (cmp_fn : A → A → ℤ) (x y : A) (ys : List A)
    → IsOrder cmp_fn
    → not_after cmp_fn y x ≡ true
    → All (λ z. not_after cmp_fn z y ≡ true) ys
    → All (λ z. not_after cmp_fn z x ≡ true) ys
All-before cmp_fn x y [] o e a = tt
All-before cmp_fn x y (z ∷ zs) o e a = (o.transitive z y x a.0 e, All-before cmp_fn x y zs o e a.1)

pub Descending-insert :
    {A : Type 0} (cmp_fn : A → A → ℤ) (x : A) (ys : List A)
    → IsOrder cmp_fn
    → Descending cmp_fn ys
    → Descending cmp_fn (insert cmp_fn x ys)
unfolding insert
Descending-insert cmp_fn x [] o d = (tt, tt)
Descending-insert cmp_fn x (y ∷ ys) o d = elim (Bool-cases (not_after cmp_fn y x)) [
  | inl e ↦ rw e ((e, All-before cmp_fn x y ys o e d.0), d)
  | inr e ↦ rw e (
    All-insert cmp_fn (λ z. not_after cmp_fn z y ≡ true) x ys (o.total y x e) d.0,
    Descending-insert cmp_fn x ys o d.1,
  )
]

-- An element before all others goes to the end.
pub insert-last :
    {A : Type 0} (cmp_fn : A → A → ℤ) (x : A) (ys : List A)
    → All (λ y. not_after cmp_fn y x ≡ false) ys
    → insert cmp_fn x ys ≡ ys ++ (x ∷ [])
unfolding insert
insert-last cmp_fn x [] a = refl
insert-last {A} cmp_fn x (y ∷ ys) a =
    rw a.0 (ap (λ (l : List A). y ∷ l) (insert-last cmp_fn x ys a.1))

count-at_most : {A : Type 0} (p : A → Bool) (n : ℕ) (f : ℕ → A) → count p (backwards n f) ≤ n
unfolding count
count-at_most p zero f = omega arith
count-at_most p (suc n) f = ground (arith, count-at_most p n f)

-- A test that holds of all elements, and one that holds of as many as there are.
pub count-full :
    {A : Type 0} (p : A → Bool) (n : ℕ) (f : ℕ → A)
    → ((i : ℕ) → i < n → p (f i) ≡ true)
    → count p (backwards n f) ≡ n
unfolding count
count-full p zero f h = refl
count-full p (suc n) f h =
    ground (arith, h n (omega arith), count-full p n f (λ i l. h i (omega (arith, l))))

pub full-count :
    {A : Type 0} (p : A → Bool) (n i : ℕ) (f : ℕ → A)
    → count p (backwards n f) ≡ n
    → i < n
    → p (f i) ≡ true
unfolding count
full-count p zero i f e l = absurd (omega (arith, l))
full-count p (suc n) i f e l = elim (Bool-cases (i == n)) [
  | inl u ↦
      (let same : i ≡ n = ground (arith, u) in
        ap (λ k. p (f k)) same ∙ ground (arith, e, count-at_most p n f))
  | inr u ↦ full-count p n i f (ground (arith, e, count-at_most p n f)) (ground (arith, u, l))
]
