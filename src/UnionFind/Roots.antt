-- ===== src/UnionFind/Roots.antt =====
-- The root of an element in the forest of Algorithm/UnionFind/UnionFind.hpp.
use code_snippet.Prelude.{
  ℕ, zero, suc, ◌≡◌, ◌≢◌, refl, ◌∙◌, sym, ap, arith, true, false, ◌==◌, inl, inr, Bool-cases,
  update, if◌then◌else◌, update_self, update_ne,
}
use mathlib.Core.Path.{subst}

abbrev pub follow : ℕ → (ℕ → ℕ) → ℕ → ℕ
follow zero parent i = i
follow (suc k) parent i = follow k parent (parent i)

-- `r` is its own parent, and `k` steps lead to it.
pub record RootOf (parent : ℕ → ℕ) (i r : ℕ) : Type 0 where
  pub steps : ℕ
  pub leads : follow steps parent i ≡ r
  pub own : parent r ≡ r

pub same_number : (i j : ℕ) → (i == j) ≡ true → i ≡ j
same_number i j e = ground (arith, e)

follow-own : (k : ℕ) (parent : ℕ → ℕ) (i : ℕ) → parent i ≡ i → follow k parent i ≡ i
follow-own zero parent i e = refl
follow-own (suc k) parent i e = ap (follow k parent) e ∙ follow-own k parent i e

root_unique :
    (k l : ℕ) (parent : ℕ → ℕ) (i r t : ℕ)
    → follow k parent i ≡ r
    → parent r ≡ r
    → follow l parent i ≡ t
    → parent t ≡ t
    → r ≡ t
root_unique zero l parent i r t e f g h =
    let own : parent i ≡ i = ap parent e ∙ f ∙ sym e in sym e ∙ sym (follow-own l parent i own) ∙ g
root_unique (suc k) zero parent i r t e f g h =
    let own : parent i ≡ i = ap parent g ∙ h ∙ sym g in sym e ∙ follow-own (suc k) parent i own ∙ g
root_unique (suc k) (suc l) parent i r t e f g h = root_unique k l parent (parent i) r t e f g h

pub RootOf-unique : {parent : ℕ → ℕ} {i r t : ℕ} → RootOf parent i r → RootOf parent i t → r ≡ t
RootOf-unique {parent} {i} {r} {t} a b =
    root_unique a.steps b.steps parent i r t a.leads a.own b.leads b.own

pub RootOf-self : {parent : ℕ → ℕ} {i : ℕ} → parent i ≡ i → RootOf parent i i
RootOf-self e = record { steps = 0; leads = refl; own = e }

pub RootOf-step : {parent : ℕ → ℕ} {i r : ℕ} → RootOf parent (parent i) r → RootOf parent i r
RootOf-step a = record { steps = suc a.steps; leads = a.leads; own = a.own }

-- The parent of an element is replaced by its root.
module _ (parent : ℕ → ℕ) (i r : ℕ) (a : RootOf parent i r) where
  compressed-own : (x : ℕ) → parent x ≡ x → update parent i r x ≡ x
  compressed-own x own = elim (Bool-cases (i == x)) [
    | inl e ↦
        (let same = same_number i x e in
          let at : RootOf parent i i = RootOf-self (subst (λ y. parent y ≡ y) (sym same) own) in
          subst (λ y. update parent i r y ≡ y) same (update_self parent i r ∙ RootOf-unique a at))
    | inr e ↦ update_ne parent i x r (ground (arith, e)) ∙ own
  ]

  compressed-follow :
      (k j x : ℕ) → follow k parent j ≡ x → parent x ≡ x → RootOf (update parent i r) j x
  compressed-follow zero j x e own =
      subst (λ y. RootOf (update parent i r) y x) (sym e) (RootOf-self (compressed-own x own))
  compressed-follow (suc k) j x e own = elim (Bool-cases (i == j)) [
    | inl f ↦
        (let same = same_number i j f in
          let here : RootOf parent j x = record { steps = suc k; leads = e; own = own } in
          let reached : r ≡ x = RootOf-unique a (subst (λ y. RootOf parent y x) (sym same) here) in
          record {
            steps = 1;
            leads = ap (update parent i r) (sym same) ∙ update_self parent i r ∙ reached;
            own = compressed-own x own;
          })
    | inr f ↦ RootOf-step (
        subst (λ y. RootOf (update parent i r) y x)
          (sym (update_ne parent i j r (ground (arith, f))))
          (compressed-follow k (parent j) x e own))
  ]

  -- No element gets another root.
  pub compressed-RootOf : (j x : ℕ) → RootOf parent j x → RootOf (update parent i r) j x
  compressed-RootOf j x b = compressed-follow b.steps j x b.leads b.own

-- A root becomes the child of another root.
module _ (parent : ℕ → ℕ) (a b : ℕ) (own_a : parent a ≡ a) (own_b : parent b ≡ b) (ne : a ≢ b) where
  linked-b : update parent a b b ≡ b
  linked-b = update_ne parent a b b ne ∙ own_b

  linked-a : RootOf (update parent a b) a b
  linked-a = record { steps = 1; leads = update_self parent a b; own = linked-b }

  target-a : (x : ℕ) → a ≡ x → (if a == x then b else x) ≡ b
  target-a x e = ground (arith, e)

  target-other : (x : ℕ) → (a == x) ≡ false → (if a == x then b else x) ≡ x
  target-other x e = rw e refl

  linked-self : (x : ℕ) → parent x ≡ x → RootOf (update parent a b) x (if a == x then b else x)
  linked-self x own = elim (Bool-cases (a == x)) [
    | inl f ↦
        (let same = same_number a x f in
          subst (RootOf (update parent a b) x) (sym (target-a x same))
            (subst (λ y. RootOf (update parent a b) y b) same linked-a))
    | inr f ↦
        subst (RootOf (update parent a b) x) (sym (target-other x f))
          (RootOf-self (update_ne parent a x b (ground (arith, f)) ∙ own))
  ]

  linked-follow :
      (k j x : ℕ)
      → follow k parent j ≡ x
      → parent x ≡ x
      → RootOf (update parent a b) j (if a == x then b else x)
  linked-follow zero j x e own =
      subst (λ y. RootOf (update parent a b) y (if a == x then b else x)) (sym e)
        (linked-self x own)
  linked-follow (suc k) j x e own = elim (Bool-cases (a == j)) [
    | inl f ↦
        (let same = same_number a j f in
          let here : RootOf parent j x = record { steps = suc k; leads = e; own = own } in
          let at : RootOf parent j j = RootOf-self (subst (λ y. parent y ≡ y) same own_a) in
          subst (λ y. RootOf (update parent a b) j (if a == y then b else y))
            (RootOf-unique at here) (linked-self j (subst (λ y. parent y ≡ y) same own_a)))
    | inr f ↦ RootOf-step (
        subst (λ y. RootOf (update parent a b) y (if a == x then b else x))
          (sym (update_ne parent a j b (ground (arith, f)))) (linked-follow k (parent j) x e own))
  ]

  -- The elements of the one root get the other, and the rest keep theirs.
  pub linked-RootOf :
      (j x : ℕ) → RootOf parent j x → RootOf (update parent a b) j (if a == x then b else x)
  linked-RootOf j x c = linked-follow c.steps j x c.leads c.own
