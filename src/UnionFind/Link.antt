-- ===== src/UnionFind/Link.antt =====
-- The step of connect of Algorithm/UnionFind/UnionFind.hpp that joins two roots.
use code_snippet.Prelude.{
  ℕ, ◌+◌, ◌<◌, ◌≡◌, ◌≢◌, refl, ◌∙◌, sym, arith, true, false, ◌⊎◌, ◌↔◌, ◌==◌, inl, inr, Bool-cases,
  update, update_self, update_ne, if◌then◌else◌, ltb,
}
use mathlib.Core.Path.{subst}
use code_snippet.UnionFind.{UnionFind, link}
use code_snippet.UnionFind.Roots.{RootOf, linked-RootOf, same_number}
use code_snippet.UnionFind.Compress.{IsForest}
use code_snippet.UnionFind.Twice.{IsValid, Same, Same-roots}

-- The lighter root gets the heavier one as its parent.
hung-IsForest :
    (size c t : ℕ) (parent weight : ℕ → ℕ)
    → IsForest size parent weight
    → c < size
    → t < size
    → c ≢ t
    → parent t ≡ t
    → IsForest size (update parent c t) (update weight t (weight t + weight c))
hung-IsForest size c t parent weight f l m ne own = record {
  inside = λ j k. elim (Bool-cases (c == j)) [
    | inl e ↦ subst (λ y. y < size) (sym (at j e)) m
    | inr e ↦
        subst (λ y. y < size) (sym (update_ne parent c j t (ground (arith, e)))) (f.inside j k)
  ];
  heavier = λ j k u. elim (Bool-cases (c == j)) [
    | inl e ↦
        subst
          (λ y. update weight t (weight t + weight c) j < update weight t (weight t + weight c) y)
          (sym (at j e)) (child j e)
    | inr e ↦
        (let same = update_ne parent c j t (ground (arith, e)) in
          let apart : parent j ≢ j = λ h. u (same ∙ h) in
          subst
            (λ y. update weight t (weight t + weight c) j < update weight t (weight t + weight c) y)
            (sym same) (rest j apart (f.heavier j k apart)))
  ];
  weighs = λ j k. let w = f.weighs j k in ground (arith, w);
}
  where
    at : (j : ℕ) → (c == j) ≡ true → update parent c t j ≡ t
    at j e = subst (λ y. update parent c t y ≡ t) (same_number c j e) (update_self parent c t)

    child :
        (j : ℕ)
        → (c == j) ≡ true
        → update weight t (weight t + weight c) j < update weight t (weight t + weight c) t
    child j e =
        let heavy = f.weighs t m in
        subst
          (λ y. update weight t (weight t + weight c) y < update weight t (weight t + weight c) t)
          (same_number c j e) (ground (arith, ne, heavy))

    rest :
        (j : ℕ)
        → parent j ≢ j
        → weight j < weight (parent j)
        → update weight t (weight t + weight c) j < update weight t (weight t + weight c) (parent j)
    rest j u h =
        let off : t ≢ j = λ e. u (subst (λ y. parent y ≡ y) e own) in ground (arith, off, h)

link-same : (s : UnionFind) (p q : ℕ) → (p == q) ≡ true → link s p q ≡ s
unfolding link
link-same s p q e = rw e refl

link-p :
    (s : UnionFind) (p q : ℕ)
    → (p == q) ≡ false
    → ltb (s.weight q) (s.weight p) ≡ true
    → link s p q ≡ record {
      size = s.size;
      parent = update s.parent q p;
      weight = update s.weight p (s.weight p + s.weight q);
    }
unfolding link
link-p s p q e f = rw (e, f) refl

link-q :
    (s : UnionFind) (p q : ℕ)
    → (p == q) ≡ false
    → ltb (s.weight q) (s.weight p) ≡ false
    → link s p q ≡ record {
      size = s.size;
      parent = update s.parent p q;
      weight = update s.weight q (s.weight q + s.weight p);
    }
unfolding link
link-q s p q e f = rw (e, f) refl

-- What the union of the sets of two roots is.
abbrev pub Joined : ℕ → ℕ → ℕ → ℕ → Type 0
Joined p q a b = (a ≡ b) ⊎ (((a ≡ p) × (q ≡ b)) ⊎ ((a ≡ q) × (p ≡ b)))

pub record Linked (s : UnionFind) (p q : ℕ) (s' : UnionFind) : Type 0 where
  pub valid : IsValid s'
  pub size_same : s'.size ≡ s.size
  pub joined :
      (a b x y : ℕ) → RootOf s.parent a x → RootOf s.parent b y → Same s' a b ↔ Joined p q x y

hung-Linked :
    (s : UnionFind) (c t p q : ℕ)
    → IsValid s
    → c < s.size
    → t < s.size
    → c ≢ t
    → s.parent c ≡ c
    → s.parent t ≡ t
    → ((x y : ℕ) → ((if c == x then t else x) ≡ (if c == y then t else y)) ↔ Joined p q x y)
    → Linked s p q (record {
      size = s.size;
      parent = update s.parent c t;
      weight = update s.weight t (s.weight t + s.weight c);
    })
hung-Linked s c t p q f l m ne own_c own_t same = record {
  valid = hung-IsForest s.size c t s.parent s.weight f l m ne own_t;
  size_same = refl;
  joined = λ a b x y g h.
      iff_both
        (Same-roots
          (record {
            size = s.size;
            parent = update s.parent c t;
            weight = update s.weight t (s.weight t + s.weight c);
          })
          a b (if c == x then t else x) (if c == y then t else y)
          (linked-RootOf s.parent c t own_c own_t ne a x g)
          (linked-RootOf s.parent c t own_c own_t ne b y h))
        (same x y);
}
  where
    iff_both : {P Q R : Type 0} → P ↔ Q → Q ↔ R → P ↔ R
    iff_both f g = (λ p. g.0 (f.0 p), λ r. f.1 (g.1 r))

pub link-Linked :
    (s : UnionFind) (p q : ℕ)
    → IsValid s
    → p < s.size
    → q < s.size
    → s.parent p ≡ p
    → s.parent q ≡ q
    → Linked s p q (link s p q)
link-Linked s p q f l m own_p own_q = elim (Bool-cases (p == q)) [
  | inl e ↦
      (let same = same_number p q e in
        subst (Linked s p q) (sym (link-same s p q e)) (record {
          valid = f;
          size_same = refl;
          joined = λ a b x y g h. (
            λ k. inl ((Same-roots s a b x y g h).0 k),
            λ k. (Same-roots s a b x y g h).1 (already x y same k),
          );
        }))
  | inr e ↦ elim (Bool-cases (ltb (s.weight q) (s.weight p))) [
    | inl g ↦
        subst (Linked s p q) (sym (link-p s p q e g))
          (hung-Linked s q p p q f m l (ground (arith, e)) own_q own_p (λ x y. ground (arith, e)))
    | inr g ↦
        subst (Linked s p q) (sym (link-q s p q e g))
          (hung-Linked s p q p q f l m (ground (arith, e)) own_p own_q (λ x y. ground (arith, e)))
  ]
]
  where
    already : (x y : ℕ) → p ≡ q → Joined p q x y → x ≡ y
    already x y same k = ground (arith, same, k)
