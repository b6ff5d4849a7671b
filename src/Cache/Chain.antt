-- ===== src/Cache/Chain.antt =====
-- The doubly linked lines of C/CSAPPLab/cache/csim.c hold a sequence, and its two list operations keep it.
use code_snippet.Prelude.{
  ℕ, ◌≡◌, ◌≢◌, refl, ◌∙◌, sym, none, some, ◌==◌, if◌then◌else◌, arith, List, [], ◌∷◌, ◌++◌, All, ap,
  NotIn, Distinct, pred_of, NotIn-pred_of, NotIn-left, NotIn-right, pred-ne,
}
use mathlib.Core.Path.{subst}
use code_snippet.Cache.{
  Heap, insert_cache_line_after, delete_cache_line, set_next, set_prev, detach,
}

-- The nodes `xs` follow `p`, and each points back at the one before it.
abbrev pub Run : Heap → ℕ → List ℕ → Type 0
Run h p [] = Unit
Run h p (x ∷ xs) = ((h p).next ≡ some x) × ((h x).prev ≡ some p) × Run h x xs

-- Two heaps agree on the links of a node.
abbrev pub SameLinks : Heap → Heap → ℕ → Type 0
SameLinks h h' x = ((h' x).next ≡ (h x).next) × ((h' x).prev ≡ (h x).prev)

-- What an operation on the nodes of `xs` leaves alone: every other line, all tags, and the `next` of each
-- line that is not in `cs`.
pub record Frame (cs xs : List ℕ) (h h' : Heap) : Type 0 where
  pub others : (j : ℕ) → NotIn j xs → h' j ≡ h j
  pub tags : (j : ℕ) → (h' j).tag ≡ (h j).tag
  pub nexts : (j : ℕ) → NotIn j cs → (h' j).next ≡ (h j).next

pub Run-same :
    (h h' : Heap) (p : ℕ) (xs : List ℕ)
    → (h' p).next ≡ (h p).next
    → All (SameLinks h h') xs
    → Run h p xs
    → Run h' p xs
Run-same h h' p [] e a r = tt
Run-same h h' p (x ∷ xs) e a r = (e ∙ r.0, a.0.1 ∙ r.1, Run-same h h' x xs a.0.0 a.1 r.2)

-- A line that is inserted after `p`, where `y` followed `p`.
insert-links :
    (h : Heap) (n p y : ℕ)
    → (h p).next ≡ some y
    → n ≢ p
    → (h' : Heap) × (insert_cache_line_after n p h ≡ some h')
      × ((j : ℕ) → (h' j).next ≡ (if p == j then some n else if n == j then some y else (h j).next))
      × ((j : ℕ) → (h' j).prev ≡ (if y == j then some n else if n == j then some p else (h j).prev))
      × ((j : ℕ) → (h' j).tag ≡ (h j).tag)
      × ((j : ℕ) → j ≢ n → j ≢ p → j ≢ y → h' j ≡ h j)
unfolding insert_cache_line_after
insert-links h n p y e ne = (
  set_prev y (some n) (set_next p (some n) (set_prev n (some p) (set_next n (h p).next h))),
  ground (arith, e, ne),
  λ j. ground (arith, e, ne),
  λ j. ground (arith, e, ne),
  λ j. ground (arith, e, ne),
  λ j a b c. ground (arith, e, ne, a, b, c),
)

delete-links :
    (h : Heap) (q d s : ℕ)
    → (h d).prev ≡ some q
    → (h d).next ≡ some s
    → q ≢ d
    → s ≢ d
    → (h' : Heap) × (delete_cache_line d h ≡ some h')
      × ((j : ℕ) → (h' j).next ≡ (if d == j then none else if q == j then some s else (h j).next))
      × ((j : ℕ) → (h' j).prev ≡ (if d == j then none else if s == j then some q else (h j).prev))
      × ((j : ℕ) → (h' j).tag ≡ (h j).tag)
      × ((j : ℕ) → j ≢ q → j ≢ d → j ≢ s → h' j ≡ h j)
unfolding delete_cache_line
delete-links h q d s eq es nq ns = (
  detach d (set_prev s (some q) (set_next q (some s) h)),
  ground (arith, eq, es, nq, ns),
  λ j. ground (arith, nq, ns),
  λ j. ground (arith, nq, ns),
  λ j. ground (arith, nq, ns),
  λ j a b c. ground (arith, a, b, c),
)

All-other3 :
    (P : ℕ → Type 0) (a b c : ℕ) (zs : List ℕ)
    → ((z : ℕ) → z ≢ a → z ≢ b → z ≢ c → P z)
    → NotIn a zs
    → NotIn b zs
    → NotIn c zs
    → All P zs
All-other3 P a b c [] f na nb nc = tt
All-other3 P a b c (z ∷ zs) f na nb nc = (
  f z (λ e. na.0 (sym e)) (λ e. nb.0 (sym e)) (λ e. nc.0 (sym e)),
  All-other3 P a b c zs f na.1 nb.1 nc.1,
)

-- A new node comes first.
pub insert-Run :
    (h : Heap) (n p y : ℕ) (ys : List ℕ)
    → Run h p (y ∷ ys)
    → NotIn n (p ∷ (y ∷ ys))
    → Distinct (p ∷ (y ∷ ys))
    → (h' : Heap) × (insert_cache_line_after n p h ≡ some h')
      × Run h' p (n ∷ (y ∷ ys))
      × Frame (n ∷ (p ∷ [])) (n ∷ (p ∷ (y ∷ ys))) h h'
insert-Run h n p y ys r out d =
    let i = insert-links h n p y r.0 out.0 in
    (
      i.0,
      i.1,
      (
        ground (arith, i.2 p),
        ground (arith, i.3 n, out.1.0),
        (
          ground (arith, i.2 n, out.0),
          ground (arith, i.3 y),
          Run-same h i.0 y ys (ground (arith, i.2 y, out.1.0, d.0.0))
              (All-other3 (SameLinks h i.0) n p y ys
                (λ z a b c. (ap (λ l. l.next) (i.5 z a b c), ap (λ l. l.prev) (i.5 z a b c)))
                out.1.1 d.0.1 d.1.0)
              r.2,
        ),
      ),
      record {
        others = λ j o. i.5 j o.0 o.1.0 o.1.1.0;
        tags = i.4;
        nexts = λ j o. ground (arith, i.2 j, o.0, o.1.0);
      },
    )

-- The node after `d` and the nodes on both sides, once `d` is out.
without-Run :
    (h h' : Heap) (q d s p : ℕ) (xs rs : List ℕ)
    → q ≡ pred_of p xs
    → ((j : ℕ) → (h' j).next ≡ (if d == j then none else if q == j then some s else (h j).next))
    → ((j : ℕ) → (h' j).prev ≡ (if d == j then none else if s == j then some q else (h j).prev))
    → ((j : ℕ) → j ≢ q → j ≢ d → j ≢ s → h' j ≡ h j)
    → Distinct (p ∷ (xs ++ (d ∷ (s ∷ rs))))
    → Run h p (xs ++ (d ∷ (s ∷ rs)))
    → Run h' p (xs ++ (s ∷ rs))
without-Run h h' q d s p [] rs e next prev same ds r = (
  ground (arith, next p, e, ds.0.0),
  ground (arith, prev s, e, ds.1.0.0),
  Run-same h h' s rs (ground (arith, next s, e, ds.0.1.0, ds.1.0.0))
      (All-other3 (SameLinks h h') q d s rs
        (λ z a b c. (ap (λ l. l.next) (same z a b c), ap (λ l. l.prev) (same z a b c)))
        (subst (λ m. NotIn m rs) (sym e) ds.0.1.1) ds.1.0.1 ds.1.1.0)
      r.2.2,
)
without-Run h h' q d s p (x ∷ xs) rs e next prev same ds r = (
  ground (arith, next p, e, p_q, p_d),
  ground (arith, prev x, x_d, x_s),
  without-Run h h' q d s x xs rs e next prev same ds.1 r.2,
)
  where
    p_q : p ≢ pred_of x xs
    p_q = NotIn-pred_of p x xs ds.0.0 (NotIn-left p xs (d ∷ (s ∷ rs)) ds.0.1)

    p_d : p ≢ d
    p_d = (NotIn-right p xs (d ∷ (s ∷ rs)) ds.0.1).0

    x_d : x ≢ d
    x_d = (NotIn-right x xs (d ∷ (s ∷ rs)) ds.1.0).0

    x_s : x ≢ s
    x_s = (NotIn-right x xs (d ∷ (s ∷ rs)) ds.1.0).1.0

pub prev-Run :
    (h : Heap) (p : ℕ) (xs : List ℕ) (d : ℕ) (rs : List ℕ)
    → Run h p (xs ++ (d ∷ rs))
    → ((h d).prev ≡ some (pred_of p xs)) × Run h d rs
prev-Run h p [] d rs r = (r.1, r.2)
prev-Run h p (x ∷ xs) d rs r = prev-Run h x xs d rs r.2

after-Distinct : (xs : List ℕ) (d s : ℕ) (rs : List ℕ) → Distinct (xs ++ (d ∷ (s ∷ rs))) → s ≢ d
after-Distinct [] d s rs ds = λ e. ds.0.0 (sym e)
after-Distinct (x ∷ xs) d s rs ds = after-Distinct xs d s rs ds.1

NotIn-three :
    (j p : ℕ) (xs : List ℕ) (d s : ℕ) (rs : List ℕ)
    → NotIn j (p ∷ (xs ++ (d ∷ (s ∷ rs))))
    → (j ≢ pred_of p xs) × (j ≢ d) × (j ≢ s)
NotIn-three j p xs d s rs o =
    let r = NotIn-right j xs (d ∷ (s ∷ rs)) o.1 in
    (NotIn-pred_of j p xs o.0 (NotIn-left j xs (d ∷ (s ∷ rs)) o.1), r.0, r.1.0)

-- A node that has one after it comes out.
pub delete-Run :
    (h : Heap) (p : ℕ) (xs : List ℕ) (d s : ℕ) (rs : List ℕ)
    → Run h p (xs ++ (d ∷ (s ∷ rs)))
    → Distinct (p ∷ (xs ++ (d ∷ (s ∷ rs))))
    → (h' : Heap) × (delete_cache_line d h ≡ some h')
      × Run h' p (xs ++ (s ∷ rs))
      × Frame (pred_of p xs ∷ (d ∷ [])) (p ∷ (xs ++ (d ∷ (s ∷ rs)))) h h'
delete-Run h p xs d s rs r ds =
    let w = prev-Run h p xs d (s ∷ rs) r in
    let q = pred_of p xs in
    let k =
      delete-links h q d s w.0 w.1.0 (pred-ne p xs d (s ∷ rs) ds) (after-Distinct xs d s rs ds.1) in
    (
      k.0,
      k.1,
      without-Run h k.0 q d s p xs rs refl k.2 k.3 k.5 ds r,
      record {
        others = λ j o. (let t = NotIn-three j p xs d s rs o in k.5 j t.0 t.1 t.2);
        tags = k.4;
        nexts = λ j o. ground (arith, k.2 j, o.0, o.1.0);
      },
    )
