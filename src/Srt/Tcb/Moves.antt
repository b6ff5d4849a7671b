-- ===== src/Srt/Tcb/Moves.antt =====
-- Moving a block between the used list and the free list, for sock and close.
use code_snippet.Prelude.{
  Apart, All-right, All-pred_of, NotIn, Distinct, pred_of, pred-ne, ℕ, ◌≡◌, ◌≢◌, Option, none, some,
  Bool, false, arith, List, [], ◌∷◌, ◌++◌, All, ap,
}
use code_snippet.Srt.Tcb.{Store, set_free}
use code_snippet.Srt.Tcb.Effect.{points, Removed, unlinked, unlinked-effect}
use code_snippet.Srt.Tcb.Linked.{
  Linked, SameLinks, Linked-same, prev-pred_of, unlink_keeps, Linked-right,
}

no_points : (q : Option ℕ) (zs : List ℕ) → q ≡ none → All (λ y. points q y ≡ false) zs
no_points q [] e = tt
no_points q (z ∷ zs) e = (ground arith, no_points q zs e)

one_points :
    (q : Option ℕ) (x : ℕ) (zs : List ℕ)
    → q ≡ some x
    → NotIn x zs
    → All (λ y. points q y ≡ false) zs
one_points q x [] e h = tt
one_points q x (z ∷ zs) e h = (ground (arith, h.0), one_points q x zs e h.1)

-- What follows `n` in its list is no node of a list that is apart.
next-Apart :
    (s : Store) (n : ℕ) (ys zs : List ℕ)
    → Linked s n ys
    → Apart ys zs
    → All (λ y. points (s.tcb n).next y ≡ false) zs
next-Apart s n [] zs l a = no_points (s.tcb n).next zs l
next-Apart s n (y ∷ ys) zs l a = one_points (s.tcb n).next y zs l.0 a.0

-- `removeFromList` on one list leaves another one as it is.
pub unlinked-other :
    (s : Store) (p : ℕ) (xs : List ℕ) (n : ℕ) (ys : List ℕ) (h : ℕ) (zs : List ℕ)
    → Distinct (p ∷ (xs ++ (n ∷ ys)))
    → Linked s p (xs ++ (n ∷ ys))
    → Apart (p ∷ (xs ++ (n ∷ ys))) (h ∷ zs)
    → Linked s h zs
    → Linked (unlinked (pred_of p xs) n s) h zs
unlinked-other s p xs n ys h zs d l ap other =
    Linked-same s (unlinked q n s) h zs (ground (arith, r.next, far.0))
      (unlink_keeps q n s zs pe ne far.1 (next-Apart s n ys zs (Linked-right s p xs n ys l) later))
      other
  where
    q : ℕ
    q = pred_of p xs

    pe : (s.tcb n).prev ≡ some (pred_of p xs)
    pe = prev-pred_of s p xs n ys l

    ne : pred_of p xs ≢ n
    ne = pred-ne p xs n ys d

    r : Removed (pred_of p xs) n s (unlinked (pred_of p xs) n s) h
    r = unlinked-effect (pred_of p xs) n s h pe ne

    far : NotIn (pred_of p xs) (h ∷ zs)
    far = All-pred_of (λ x. NotIn x (h ∷ zs)) p xs (n ∷ ys) ap.0 ap.1

    narrow : (us : List ℕ) → Apart us (h ∷ zs) → Apart us zs
    narrow [] a = tt
    narrow (u ∷ us) a = (a.0.1, narrow us a.1)

    later : Apart ys zs
    later = narrow ys (All-right (λ x. NotIn x (h ∷ zs)) xs (n ∷ ys) ap.1).1

-- `isFree` is no link.
pub set_free-Linked :
    (s : Store) (n : ℕ) (b : Bool) (h : ℕ) (zs : List ℕ)
    → Linked s h zs
    → Linked (set_free n b s) h zs
set_free-Linked s n b h zs l = Linked-same s (set_free n b s) h zs (ground arith) (same zs) l
  where
    same : (us : List ℕ) → All (SameLinks s (set_free n b s)) us
    same [] = tt
    same (u ∷ us) = ((ground arith, ground arith), same us)
