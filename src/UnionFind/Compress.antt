-- ===== src/UnionFind/Compress.antt =====
-- root of Algorithm/UnionFind/UnionFind.hpp ends, and shortens the paths.
use code_snippet.Prelude.{
  ℕ, zero, suc, ◌+◌, ◌≤◌, ◌<◌, ◌≡◌, ◌≢◌, refl, ◌∙◌, sym, ap, arith, Option, some, true, false, ◌==◌,
  inl, inr, Bool-cases, update, update_self, update_ne,
}
use mathlib.Core.Path.{subst}
use code_snippet.UnionFind.{UnionFind, set_parent, root_loop, root, total}
use code_snippet.UnionFind.Roots.{RootOf, RootOf-self, RootOf-step, compressed-RootOf, same_number}

-- The parents are elements, and they weigh more than their children.
pub record IsForest (size : ℕ) (parent weight : ℕ → ℕ) : Type 0 where
  pub inside : (i : ℕ) → i < size → parent i < size
  pub heavier : (i : ℕ) → i < size → parent i ≢ i → weight i < weight (parent i)
  pub weighs : (i : ℕ) → i < size → 0 < weight i

pub weight-total : (n i : ℕ) (weight : ℕ → ℕ) → i < n → weight i ≤ total n weight
unfolding total
weight-total zero i weight l = absurd (omega (arith, l))
weight-total (suc n) i weight l = elim (Bool-cases (i == n)) [
  | inl e ↦ (let same : weight i ≡ weight n = ap weight (same_number i n e) in omega (arith, same))
  | inr e ↦ (let rest = weight-total n i weight (ground (arith, e, l)) in omega (arith, rest))
]

-- The root of `i` is found, and every element has the root it had.
pub record Rooted (size : ℕ) (parent weight : ℕ → ℕ) (i : ℕ) (run : Option ((ℕ → ℕ) × ℕ))
    : Type 0 where
  pub result : ℕ → ℕ
  pub top : ℕ
  pub ran : run ≡ some (result, top)
  pub is_root : RootOf parent i top
  pub in_size : top < size
  pub not_lighter : weight i ≤ weight top
  pub forest : IsForest size result weight
  pub kept : (j x : ℕ) → RootOf parent j x → RootOf result j x

root_loop-own :
    (fuel : ℕ) (parent : ℕ → ℕ) (i : ℕ)
    → (parent i == i) ≡ true
    → root_loop (suc fuel) parent i ≡ some (parent, i)
unfolding root_loop
root_loop-own fuel parent i e = rw e refl

root_loop-up :
    (fuel : ℕ) (parent : ℕ → ℕ) (i : ℕ)
    → (parent i == i) ≡ false
    → root_loop (suc fuel) parent i ≡ set_parent i (root_loop fuel parent (parent i))
unfolding root_loop
root_loop-up fuel parent i e = rw e refl

compressed-IsForest :
    (size i r : ℕ) (parent weight : ℕ → ℕ)
    → IsForest size parent weight
    → r < size
    → weight i < weight r
    → IsForest size (update parent i r) weight
compressed-IsForest size i r parent weight f l h = record {
  inside = λ j m. elim (Bool-cases (i == j)) [
    | inl e ↦ subst (λ y. y < size) (sym (at j e)) l
    | inr e ↦
        subst (λ y. y < size) (sym (update_ne parent i j r (ground (arith, e)))) (f.inside j m)
  ];
  heavier = λ j m u. elim (Bool-cases (i == j)) [
    | inl e ↦
        subst (λ y. weight j < weight y) (sym (at j e))
          (subst (λ y. weight y < weight r) (same_number i j e) h)
    | inr e ↦
        (let same = update_ne parent i j r (ground (arith, e)) in
          subst (λ y. weight j < weight y) (sym same) (f.heavier j m (λ own. u (same ∙ own))))
  ];
  weighs = f.weighs;
}
  where
    at : (j : ℕ) → (i == j) ≡ true → update parent i r j ≡ r
    at j e = subst (λ y. update parent i r y ≡ r) (same_number i j e) (update_self parent i r)

root_loop-Rooted :
    (fuel size most i : ℕ) (parent weight : ℕ → ℕ)
    → IsForest size parent weight
    → ((j : ℕ) → j < size → weight j ≤ most)
    → i < size
    → most < fuel + weight i
    → Rooted size parent weight i (root_loop fuel parent i)
root_loop-Rooted zero size most i parent weight f b l m =
    let bound = b i l in absurd (omega (arith, bound, m))
root_loop-Rooted (suc fuel) size most i parent weight f b l m = elim (Bool-cases (parent i == i)) [
  | inl e ↦ record {
    result = parent;
    top = i;
    ran = root_loop-own fuel parent i e;
    is_root = RootOf-self (same_number (parent i) i e);
    in_size = l;
    not_lighter = omega arith;
    forest = f;
    kept = λ j x r. r;
  }
  | inr e ↦
      (let heavier = f.heavier i l (ground (arith, e)) in
        let r =
          root_loop-Rooted fuel size most (parent i) parent weight f b (f.inside i l)
            (omega (arith, m, heavier)) in
        let grows = r.not_lighter in
        record {
          result = update r.result i r.top;
          top = r.top;
          ran = root_loop-up fuel parent i e ∙ ap (set_parent i) r.ran;
          is_root = RootOf-step r.is_root;
          in_size = r.in_size;
          not_lighter = omega (arith, heavier, grows);
          forest =
              compressed-IsForest size i r.top r.result weight r.forest r.in_size
                (omega (arith, heavier, grows));
          kept = λ j x k.
              compressed-RootOf r.result i r.top (r.kept i r.top (RootOf-step r.is_root)) j x
                (r.kept j x k);
        })
]

-- The sum of the weights is enough fuel.
pub root-Rooted :
    (s : UnionFind) (i : ℕ)
    → IsForest s.size s.parent s.weight
    → i < s.size
    → Rooted s.size s.parent s.weight i (root s i)
unfolding root
root-Rooted s i f l =
    root_loop-Rooted (suc (total s.size s.weight)) s.size (total s.size s.weight) i s.parent
      s.weight f (λ j m. weight-total s.size j s.weight m) l (omega arith)
