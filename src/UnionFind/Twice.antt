-- ===== src/UnionFind/Twice.antt =====
-- The two calls of root in connect and isConnected of Algorithm/UnionFind/UnionFind.hpp.
use code_snippet.Prelude.{ℕ, ◌<◌, ◌≡◌, refl, ◌∙◌, sym, arith, some, true, ◌↔◌, ◌==◌}
use mathlib.Core.Path.{subst}
use code_snippet.UnionFind.{UnionFind, root, with_parent, is_connected, link, connect}
use code_snippet.UnionFind.Roots.{RootOf, RootOf-unique}
use code_snippet.UnionFind.Compress.{IsForest, root-Rooted}

abbrev pub IsValid : UnionFind → Type 0
IsValid s = IsForest s.size s.parent s.weight

-- Two elements with one root.
unfoldable pub Same : UnionFind → ℕ → ℕ → Type 0
Same s a b = (r : ℕ) × RootOf s.parent a r × RootOf s.parent b r

pub Same-roots :
    (s : UnionFind) (a b ra rb : ℕ)
    → RootOf s.parent a ra
    → RootOf s.parent b rb
    → Same s a b ↔ (ra ≡ rb)
unfolding Same
Same-roots s a b ra rb x y = (
  λ h. RootOf-unique x h.1 ∙ sym (RootOf-unique y h.2),
  λ e. (rb, subst (RootOf s.parent a) e x, y),
)

-- The two calls of root.
pub record Both (s : UnionFind) (p q : ℕ) : Type 0 where
  pub first : ℕ → ℕ
  pub second : ℕ → ℕ
  pub rootp : ℕ
  pub rootq : ℕ
  pub ran_first : root s p ≡ some (first, rootp)
  pub ran_second : root (with_parent s first) q ≡ some (second, rootq)
  pub is_rootp : RootOf s.parent p rootp
  pub is_rootq : RootOf s.parent q rootq
  pub p_inside : rootp < s.size
  pub q_inside : rootq < s.size
  pub valid : IsValid (with_parent s second)
  pub kept : (j x : ℕ) → RootOf s.parent j x → RootOf second j x

pub two_roots : (s : UnionFind) (p q : ℕ) → IsValid s → p < s.size → q < s.size → Both s p q
two_roots s p q f l m =
    let a = root-Rooted s p f l in
    let b = root-Rooted (with_parent s a.result) q a.forest m in
    let c = root-Rooted s q f m in
    let same = RootOf-unique (a.kept q c.top c.is_root) b.is_root in
    record {
      first = a.result;
      second = b.result;
      rootp = a.top;
      rootq = b.top;
      ran_first = a.ran;
      ran_second = b.ran;
      is_rootp = a.is_root;
      is_rootq = subst (RootOf s.parent q) same c.is_root;
      p_inside = a.in_size;
      q_inside = b.in_size;
      valid = b.forest;
      kept = λ j x k. b.kept j x (a.kept j x k);
    }

pub is_connected-runs :
    (s : UnionFind) (p q : ℕ) (b : Both s p q)
    → is_connected s p q ≡ some (with_parent s b.second, b.rootp == b.rootq)
unfolding is_connected
is_connected-runs s p q b = rw (b.ran_first, b.ran_second) refl

pub connect-runs :
    (s : UnionFind) (p q : ℕ) (b : Both s p q)
    → connect s p q ≡ some (link (with_parent s b.second) b.rootp b.rootq)
unfolding connect
connect-runs s p q b = rw (b.ran_first, b.ran_second) refl

pub test_iff : (i j : ℕ) → ((i == j) ≡ true) ↔ (i ≡ j)
test_iff i j = ground arith

pub iff_trans : {P Q R : Type 0} → P ↔ Q → R ↔ Q → P ↔ R
iff_trans f g = (λ p. g.1 (f.0 p), λ r. f.1 (g.0 r))
