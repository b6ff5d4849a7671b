-- ===== src/UnionFind/Connect.antt =====
-- connect, isConnected and the constructor of Algorithm/UnionFind/UnionFind.hpp.
use code_snippet.Prelude.{
  ℕ, zero, suc, ◌<◌, ◌≡◌, refl, ◌∙◌, arith, some, Bool, true, ◌⊎◌, ◌↔◌, ◌==◌, inl, inr, Bool-cases,
  update, update_self, update_ne,
}
use mathlib.Core.Path.{subst}
use code_snippet.UnionFind.{
  UnionFind, union_find, set_singles, with_parent, is_connected, link, connect,
}
use code_snippet.UnionFind.Roots.{RootOf, RootOf-self, same_number}
use code_snippet.UnionFind.Compress.{root-Rooted}
use code_snippet.UnionFind.Twice.{
  IsValid, Same, Same-roots, two_roots, is_connected-runs, connect-runs, test_iff, iff_trans,
}
use code_snippet.UnionFind.Link.{Joined, link-Linked}

-- In a valid forest the answer for two of its elements comes, and it is true exactly if the two have one
-- root; the forest stays valid and every element keeps its root.
pub is_connected-Same :
    (s : UnionFind) (p q j x : ℕ)
    → IsValid s
    → p < s.size
    → q < s.size
    → RootOf s.parent j x
    → (s' : UnionFind) × (answer : Bool) × (is_connected s p q ≡ some (s', answer))
      × ((answer ≡ true) ↔ Same s p q)
      × IsValid s'
      × RootOf s'.parent j x
is_connected-Same s p q j x f l m k =
    let b = two_roots s p q f l m in
    (
      with_parent s b.second,
      b.rootp == b.rootq,
      is_connected-runs s p q b,
      iff_trans (test_iff b.rootp b.rootq) (Same-roots s p q b.rootp b.rootq b.is_rootp b.is_rootq),
      b.valid,
      b.kept j x k,
    )

Joined-Same :
    (s : UnionFind) (p q a b rp rq ra rb : ℕ)
    → RootOf s.parent p rp
    → RootOf s.parent q rq
    → RootOf s.parent a ra
    → RootOf s.parent b rb
    → Joined rp rq ra rb ↔ (Same s a b ⊎ ((Same s a p × Same s q b) ⊎ (Same s a q × Same s p b)))
Joined-Same s p q a b rp rq ra rb x y z w = (forth, back)
  where
    forth :
        Joined rp rq ra rb → Same s a b ⊎ ((Same s a p × Same s q b) ⊎ (Same s a q × Same s p b))
    forth (inl e) = inl ((Same-roots s a b ra rb z w).1 e)
    forth (inr (inl (e, f))) =
        inr (inl ((Same-roots s a p ra rp z x).1 e, (Same-roots s q b rq rb y w).1 f))
    forth (inr (inr (e, f))) =
        inr (inr ((Same-roots s a q ra rq z y).1 e, (Same-roots s p b rp rb x w).1 f))

    back : Same s a b ⊎ ((Same s a p × Same s q b) ⊎ (Same s a q × Same s p b)) → Joined rp rq ra rb
    back (inl e) = inl ((Same-roots s a b ra rb z w).0 e)
    back (inr (inl (e, f))) =
        inr (inl ((Same-roots s a p ra rp z x).0 e, (Same-roots s q b rq rb y w).0 f))
    back (inr (inr (e, f))) =
        inr (inr ((Same-roots s a q ra rq z y).0 e, (Same-roots s p b rp rb x w).0 f))

-- In a valid forest the connection of two of its elements `p` and `q` ends, in a valid forest of the
-- same size. There two of its elements have one root exactly if they had one before, or one had that of
-- `p` and the other that of `q`.
pub connect-Same :
    (s : UnionFind) (p q a b : ℕ)
    → IsValid s
    → p < s.size
    → q < s.size
    → a < s.size
    → b < s.size
    → (s' : UnionFind) × (connect s p q ≡ some s')
      × IsValid s'
      × (s'.size ≡ s.size)
      × (Same s' a b ↔ (Same s a b ⊎ ((Same s a p × Same s q b) ⊎ (Same s a q × Same s p b))))
connect-Same s p q a b f l m la lb =
    let both = two_roots s p q f l m in
    let s2 = with_parent s both.second in
    let at_p = both.kept p both.rootp both.is_rootp in
    let at_q = both.kept q both.rootq both.is_rootq in
    let k =
      link-Linked s2 both.rootp both.rootq both.valid both.p_inside both.q_inside at_p.own
        at_q.own in
    let ra = root-Rooted s a f la in
    let rb = root-Rooted s b f lb in
    let joined =
      k.joined a b ra.top rb.top (both.kept a ra.top ra.is_root) (both.kept b rb.top rb.is_root) in
    let before =
      Joined-Same s p q a b both.rootp both.rootq ra.top rb.top both.is_rootp both.is_rootq
        ra.is_root rb.is_root in
    (
      link s2 both.rootp both.rootq,
      connect-runs s p q both,
      k.valid,
      k.size_same,
      (λ h. before.0 (joined.0 h), λ h. joined.1 (before.1 h)),
    )

singles-size : (n : ℕ) (s : UnionFind) → (set_singles n s).size ≡ s.size
unfolding set_singles
singles-size zero s = refl
singles-size (suc n) s = singles-size n s

singles-at :
    (n i : ℕ) (s : UnionFind)
    → i < n
    → ((set_singles n s).parent i ≡ i) × ((set_singles n s).weight i ≡ 1)
unfolding set_singles
singles-at zero i s l = absurd (omega (arith, l))
singles-at (suc n) i s l = elim (Bool-cases (n == i)) [
  | inl e ↦
      (let same = same_number n i e in
        (
          subst (λ k. update (set_singles n s).parent n n k ≡ k) same
              (update_self (set_singles n s).parent n n),
          subst (λ k. update (set_singles n s).weight n 1 k ≡ 1) same
              (update_self (set_singles n s).weight n 1),
        ))
  | inr e ↦
      (let rest = singles-at n i s (ground (arith, e, l)) in
        (
          update_ne (set_singles n s).parent n i n (ground (arith, e)) ∙ rest.0,
          update_ne (set_singles n s).weight n i 1 (ground (arith, e)) ∙ rest.1,
        ))
]

-- The constructor makes a valid forest of single elements: two of them have one root only if they are equal.
pub union_find-Same :
    (n a b : ℕ) (parent weight : ℕ → ℕ)
    → a < n
    → b < n
    → IsValid (union_find n parent weight)
      × ((union_find n parent weight).size ≡ n)
      × (Same (union_find n parent weight) a b ↔ (a ≡ b))
unfolding union_find
union_find-Same n a b parent weight l m =
    let s : UnionFind = record { size = n; parent = parent; weight = weight } in
    let size = singles-size n s in
    let within : (i : ℕ) → i < (set_singles n s).size → i < n = λ i k. omega (arith, k, size) in
    (
      record {
        inside = λ i k. let own = (singles-at n i s (within i k)).0 in omega (arith, own, k);
        heavier = λ i k u. absurd (u (singles-at n i s (within i k)).0);
        weighs = λ i k. let one = (singles-at n i s (within i k)).1 in omega (arith, one);
      },
      size,
      Same-roots (set_singles n s) a b a b (RootOf-self (singles-at n a s l).0)
          (RootOf-self (singles-at n b s m).0),
    )
