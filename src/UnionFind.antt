-- ===== src/UnionFind.antt =====
-- The disjoint sets of Algorithm/UnionFind/UnionFind.hpp. The two arrays are functions of the index, of which
-- the first `size` count. `none` is a run out of fuel, and the fuel is one more than the
-- sum of the weights.
pub mod Roots
pub mod Compress
pub mod Twice
pub mod Link
pub mod Connect
mod Tests
use code_snippet.Prelude.{
  ℕ, zero, suc, ◌+◌, Option, none, some, Bool, ◌==◌, ltb, if◌then◌else◌, update,
}

pub record UnionFind : Type 0 where
  pub size : ℕ
  pub parent : ℕ → ℕ
  pub weight : ℕ → ℕ

-- The loop of the constructor.
unfoldable pub set_singles : ℕ → UnionFind → UnionFind
set_singles zero s = s
set_singles (suc i) s =
    let before = set_singles i s in
    record {
      size = before.size;
      parent = update before.parent i i;
      weight = update before.weight i 1;
    }

-- The arrays of `new` hold anything at first.
unfoldable pub union_find : ℕ → (ℕ → ℕ) → (ℕ → ℕ) → UnionFind
union_find n parent weight = set_singles n (record { size = n; parent = parent; weight = weight })

-- The arrays after the call, and its result.
abbrev pub set_parent : ℕ → Option ((ℕ → ℕ) × ℕ) → Option ((ℕ → ℕ) × ℕ)
set_parent i none = none
set_parent i (some (parent, r)) = some (update parent i r, r)

unfoldable pub root_loop : ℕ → (ℕ → ℕ) → ℕ → Option ((ℕ → ℕ) × ℕ)
root_loop zero parent i = none
root_loop (suc fuel) parent i =
    let rest = set_parent i (root_loop fuel parent (parent i)) in
    if parent i == i then some (parent, i) else rest

unfoldable pub total : ℕ → (ℕ → ℕ) → ℕ
total zero weight = 0
total (suc n) weight = weight n + total n weight

unfoldable pub root : UnionFind → ℕ → Option ((ℕ → ℕ) × ℕ)
root s i = root_loop (suc (total s.size s.weight)) s.parent i

abbrev pub with_parent : UnionFind → (ℕ → ℕ) → UnionFind
with_parent s parent = record { size = s.size; parent = parent; weight = s.weight }

-- What follows a call of root.
abbrev pub after_root {ℓ} :
    {A : Type ℓ} → UnionFind → (UnionFind → ℕ → Option A) → Option ((ℕ → ℕ) × ℕ) → Option A
after_root s next none = none
after_root s next (some (parent, r)) = next (with_parent s parent) r

unfoldable pub is_connected : UnionFind → ℕ → ℕ → Option (UnionFind × Bool)
is_connected s p q =
    after_root s (λ s1 rootp. after_root s1 (λ s2 rootq. some (s2, rootp == rootq)) (root s1 q))
      (root s p)

unfoldable pub link : UnionFind → ℕ → ℕ → UnionFind
link s rootp rootq =
    if rootp == rootq
    then s
    else (if ltb (s.weight rootq) (s.weight rootp)
        then record {
          size = s.size;
          parent = update s.parent rootq rootp;
          weight = update s.weight rootp (s.weight rootp + s.weight rootq);
        }
        else record {
          size = s.size;
          parent = update s.parent rootp rootq;
          weight = update s.weight rootq (s.weight rootq + s.weight rootp);
        })

unfoldable pub connect : UnionFind → ℕ → ℕ → Option UnionFind
connect s p q =
    after_root s (λ s1 rootp. after_root s1 (λ s2 rootq. some (link s2 rootp rootq)) (root s1 q))
      (root s p)
