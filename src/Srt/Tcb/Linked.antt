-- ===== src/Srt/Tcb/Linked.antt =====
-- The doubly linked lists of common/list.h hold a sequence of nodes, and the operations keep it.
use code_snippet.Prelude.{
  NotIn, Distinct, NotIn-left, NotIn-right, pred_of, NotIn-pred_of, pred-ne, ℕ, ◌≡◌, ◌≢◌, refl, ◌∙◌,
  sym, Option, none, some, false, arith, List, [], ◌∷◌, ◌++◌, All, ap,
}
use mathlib.Core.Path.{subst}
use code_snippet.Srt.Tcb.{
  Store, insert_into_list, remove_from_list, take_first, take_from_list_head,
}
use code_snippet.Srt.Tcb.Effect.{
  points, Inserted, insert_into_list-effect, Removed, unlinked, remove_from_list-some,
  unlinked-effect,
}

-- After node `p` come the nodes `xs`, each pointing back at the one before it, and then NULL.
abbrev pub Linked : Store → ℕ → List ℕ → Type 0
Linked s p [] = (s.tcb p).next ≡ none
Linked s p (x ∷ xs) = ((s.tcb p).next ≡ some x) × ((s.tcb x).prev ≡ some p) × Linked s x xs

-- The two stores agree on the links of a node.
abbrev pub SameLinks : Store → Store → ℕ → Type 0
SameLinks s s' x = ((s'.tcb x).next ≡ (s.tcb x).next) × ((s'.tcb x).prev ≡ (s.tcb x).prev)

pub Linked-same :
    (s s' : Store) (p : ℕ) (xs : List ℕ)
    → (s'.tcb p).next ≡ (s.tcb p).next
    → All (SameLinks s s') xs
    → Linked s p xs
    → Linked s' p xs
Linked-same s s' p [] e all l = e ∙ l
Linked-same s s' p (x ∷ xs) e all l =
    (e ∙ l.0, all.0.1 ∙ l.1, Linked-same s s' x xs all.0.0 all.1 l.2)

-- Nodes other than `lh`, `n` and the old first node keep their links in an insertion.
insert_keeps :
    (lh n : ℕ) (s : Store) (xs : List ℕ)
    → n ≢ lh
    → NotIn n xs
    → NotIn lh xs
    → All (λ x. points (s.tcb lh).next x ≡ false) xs
    → All (SameLinks s (insert_into_list lh n s)) xs
insert_keeps lh n s [] ne a b c = tt
insert_keeps lh n s (x ∷ xs) ne a b c =
    ((ground (arith, e.next), ground (arith, e.prev)), insert_keeps lh n s xs ne a.1 b.1 c.1)
  where
    e : Inserted lh n s (insert_into_list lh n s) x
    e = insert_into_list-effect lh n s x ne

not_pointed :
    (q : Option ℕ) (x : ℕ) (xs : List ℕ)
    → q ≡ some x
    → NotIn x xs
    → All (λ y. points q y ≡ false) xs
not_pointed q x [] e d = tt
not_pointed q x (y ∷ ys) e d = (ground (arith, d.0), not_pointed q x ys e d.1)

-- `inserIntoList` puts the node at the front.
pub insert_into_list-Linked :
    (lh n : ℕ) (s : Store) (xs : List ℕ)
    → n ≢ lh
    → NotIn n xs
    → NotIn lh xs
    → Distinct xs
    → Linked s lh xs
    → Linked (insert_into_list lh n s) lh (n ∷ xs)
insert_into_list-Linked lh n s [] ne a b d l =
    (ground (arith, at lh), ground (arith, at n), ground (arith, at n))
  where
    at : (j : ℕ) → Inserted lh n s (insert_into_list lh n s) j
    at j = insert_into_list-effect lh n s j ne
insert_into_list-Linked lh n s (x ∷ xs) ne a b d l = (
  ground (arith, (at lh).next),
  ground (arith, (at n).prev),
  (
    ground (arith, (at n).next),
    ground (arith, (at x).prev),
    Linked-same s (insert_into_list lh n s) x xs (ground (arith, (at x).next))
        (insert_keeps lh n s xs ne a.1 b.1 (not_pointed (s.tcb lh).next x xs l.0 d.0)) l.2,
  ),
)
  where
    at : (j : ℕ) → Inserted lh n s (insert_into_list lh n s) j
    at j = insert_into_list-effect lh n s j ne

-- A list that shares no node with the written ones stays as it is.
pub insert_into_list-other :
    (lh n : ℕ) (s : Store) (xs : List ℕ) (h : ℕ) (ys : List ℕ)
    → n ≢ lh
    → Linked s lh xs
    → NotIn n (h ∷ ys)
    → NotIn lh (h ∷ ys)
    → All (λ x. NotIn x (h ∷ ys)) xs
    → Linked s h ys
    → Linked (insert_into_list lh n s) h ys
insert_into_list-other lh n s xs h ys ne l a b apart other =
    Linked-same s (insert_into_list lh n s) h ys (ground (arith, e.next))
      (insert_keeps lh n s ys ne a.1 b.1 (first xs l apart)) other
  where
    e : Inserted lh n s (insert_into_list lh n s) h
    e = insert_into_list-effect lh n s h ne

    none_points : (q : Option ℕ) (zs : List ℕ) → q ≡ none → All (λ y. points q y ≡ false) zs
    none_points q [] e = tt
    none_points q (z ∷ zs) e = (ground arith, none_points q zs e)

    first :
        (zs : List ℕ)
        → Linked s lh zs
        → All (λ x. NotIn x (h ∷ ys)) zs
        → All (λ y. points (s.tcb lh).next y ≡ false) ys
    first [] l ap = none_points _ ys l
    first (z ∷ zs) l ap = not_pointed _ z ys l.0 ap.0.1

pub prev-pred_of :
    (s : Store) (p : ℕ) (xs : List ℕ) (n : ℕ) (ys : List ℕ)
    → Linked s p (xs ++ (n ∷ ys))
    → (s.tcb n).prev ≡ some (pred_of p xs)
prev-pred_of s p [] n ys l = l.1
prev-pred_of s p (x ∷ xs) n ys l = prev-pred_of s x xs n ys l.2

-- Nodes that are neither the predecessor of `n` nor the one after `n` keep their links.
pub unlink_keeps :
    (q n : ℕ) (s : Store) (xs : List ℕ)
    → (s.tcb n).prev ≡ some q
    → q ≢ n
    → NotIn q xs
    → All (λ x. points (s.tcb n).next x ≡ false) xs
    → All (SameLinks s (unlinked q n s)) xs
unlink_keeps q n s [] e ne a c = tt
unlink_keeps q n s (x ∷ xs) e ne a c =
    ((ground (arith, r.next), ground (arith, r.prev)), unlink_keeps q n s xs e ne a.1 c.1)
  where
    r : Removed q n s (unlinked q n s) x
    r = unlinked-effect q n s x e ne

pub Linked-right :
    (s : Store) (p : ℕ) (xs : List ℕ) (n : ℕ) (ys : List ℕ)
    → Linked s p (xs ++ (n ∷ ys))
    → Linked s n ys
Linked-right s p [] n ys l = l.2
Linked-right s p (x ∷ xs) n ys l = Linked-right s x xs n ys l.2

points-next :
    (s : Store) (n x : ℕ) (ys : List ℕ)
    → Linked s n ys
    → NotIn x ys
    → points (s.tcb n).next x ≡ false
points-next s n x [] l d = ground (arith, l)
points-next s n x (y ∷ ys) l d = ground (arith, l.0, d.0)

-- Unlinking `n` leaves the other nodes in their order. `q` is the node before `n`.
pub unlinked-Linked :
    (s : Store) (p q : ℕ) (xs : List ℕ) (n : ℕ) (ys : List ℕ)
    → q ≡ pred_of p xs
    → (s.tcb n).prev ≡ some q
    → q ≢ n
    → Distinct (p ∷ (xs ++ (n ∷ ys)))
    → Linked s p (xs ++ (n ∷ ys))
    → Linked (unlinked q n s) p (xs ++ ys)
unlinked-Linked s p q [] n [] e pe ne d l = ground (arith, (unlinked-effect q n s p pe ne).next)
unlinked-Linked s p q [] n (y ∷ ys) e pe ne d l = (
  ground (arith, (unlinked-effect q n s p pe ne).next),
  ground (arith, (unlinked-effect q n s y pe ne).prev),
  Linked-same s (unlinked q n s) y ys
      (ground (arith, (unlinked-effect q n s y pe ne).next, d.0.1.0))
      (unlink_keeps q n s ys pe ne (subst (λ m. NotIn m ys) (sym e) d.0.1.1)
        (not_pointed (s.tcb n).next y ys l.2.0 d.1.1.0))
      l.2.2,
)
unlinked-Linked s p q (x ∷ xs) n ys e pe ne d l = (
  ground (
    arith,
    (unlinked-effect q n s p pe ne).next,
    l.0,
    e,
    NotIn-pred_of p x xs d.0.0 (NotIn-left p xs (n ∷ ys) d.0.1),
  ),
  ground (arith, (unlinked-effect q n s x pe ne).prev, l.1, fresh),
  unlinked-Linked s x q xs n ys e pe ne d.1 l.2,
)
  where
    fresh : points (s.tcb n).next x ≡ false
    fresh =
        points-next s n x ys (Linked-right s p (x ∷ xs) n ys l) (NotIn-right x xs (n ∷ ys) d.1.0).1

-- `removeFromList` takes a node out of the list that holds it, and the others stay in order.
pub remove_from_list-Linked :
    (s : Store) (lh : ℕ) (xs : List ℕ) (n : ℕ) (ys : List ℕ)
    → Distinct (lh ∷ (xs ++ (n ∷ ys)))
    → Linked s lh (xs ++ (n ∷ ys))
    → (s' : Store) × (remove_from_list n s ≡ some s') × Linked s' lh (xs ++ ys)
remove_from_list-Linked s lh xs n ys d l =
    let pe = prev-pred_of s lh xs n ys l in
    let q = pred_of lh xs in
    (
      unlinked q n s,
      remove_from_list-some q n s pe,
      unlinked-Linked s lh q xs n ys refl pe (pred-ne lh xs n ys d) d l,
    )

-- `takeFromListHead` on a list with nodes returns the first one and leaves the rest.
pub take_from_list_head-Linked :
    (malloc : ℕ → Option ℕ) (s : Store) (lh n : ℕ) (ys : List ℕ)
    → Distinct (lh ∷ (n ∷ ys))
    → Linked s lh (n ∷ ys)
    → (s' : Store) × (take_from_list_head malloc lh s ≡ some (some n, s')) × Linked s' lh ys
unfolding take_from_list_head take_first
take_from_list_head-Linked malloc s lh n ys d l =
    let r = remove_from_list-Linked s lh [] n ys d l in (r.0, ground (arith, l.0, r.1), r.2)
