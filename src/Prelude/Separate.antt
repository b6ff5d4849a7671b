-- ===== src/Prelude/Separate.antt =====
-- Lists of numbers without repetition, and where a number stands in one.
use Prim.Native.Nat.{ℕ}
use mathlib.Core.Logic.{◌≢◌}
use mathlib.Core.List.{List, [], ◌∷◌, ◌++◌}
use mathlib.Core.Path.{sym}
use code_snippet.Prelude.Lists.{All}

abbrev pub NotIn : ℕ → List ℕ → Type 0
NotIn n [] = Unit
NotIn n (x ∷ xs) = (n ≢ x) × NotIn n xs

abbrev pub Distinct : List ℕ → Type 0
Distinct [] = Unit
Distinct (x ∷ xs) = NotIn x xs × Distinct xs

-- The node before the one that follows `xs` after `p`.
abbrev pub pred_of : ℕ → List ℕ → ℕ
pred_of p [] = p
pred_of p (x ∷ xs) = pred_of x xs

pub NotIn-left : (n : ℕ) (xs ys : List ℕ) → NotIn n (xs ++ ys) → NotIn n xs
NotIn-left n [] ys h = tt
NotIn-left n (x ∷ xs) ys h = (h.0, NotIn-left n xs ys h.1)

pub NotIn-right : (n : ℕ) (xs ys : List ℕ) → NotIn n (xs ++ ys) → NotIn n ys
NotIn-right n [] ys h = h
NotIn-right n (x ∷ xs) ys h = NotIn-right n xs ys h.1

pub NotIn-pred_of : (q p : ℕ) (xs : List ℕ) → q ≢ p → NotIn q xs → q ≢ pred_of p xs
NotIn-pred_of q p [] ne h = ne
NotIn-pred_of q p (x ∷ xs) ne h = NotIn-pred_of q x xs h.0 h.1

pub pred-ne :
    (p : ℕ) (xs : List ℕ) (n : ℕ) (ys : List ℕ) → Distinct (p ∷ (xs ++ (n ∷ ys))) → pred_of p xs ≢ n
pred-ne p [] n ys d = d.0.0
pred-ne p (x ∷ xs) n ys d = pred-ne x xs n ys d.1

-- No node of the first list is one of the second.
abbrev pub Apart : List ℕ → List ℕ → Type 0
Apart xs zs = All (λ x. NotIn x zs) xs

pub Apart-nil : (zs : List ℕ) → Apart zs []
Apart-nil [] = tt
Apart-nil (z ∷ zs) = (tt, Apart-nil zs)

pub Apart-cons : (x : ℕ) (xs zs : List ℕ) → NotIn x zs → Apart zs xs → Apart zs (x ∷ xs)
Apart-cons x xs [] a b = tt
Apart-cons x xs (z ∷ zs) a b = ((λ e. a.0 (sym e), b.0), Apart-cons x xs zs a.1 b.1)

pub Apart-sym : (xs zs : List ℕ) → Apart xs zs → Apart zs xs
Apart-sym [] zs a = Apart-nil zs
Apart-sym (x ∷ xs) zs a = Apart-cons x xs zs a.0 (Apart-sym xs zs a.1)

pub All-right : (P : ℕ → Type 0) (xs ys : List ℕ) → All P (xs ++ ys) → All P ys
All-right P [] ys a = a
All-right P (x ∷ xs) ys a = All-right P xs ys a.1

pub All-pred_of :
    (P : ℕ → Type 0) (p : ℕ) (xs ys : List ℕ) → P p → All P (xs ++ ys) → P (pred_of p xs)
All-pred_of P p [] ys h a = h
All-pred_of P p (x ∷ xs) ys h a = All-pred_of P x xs ys a.0 a.1

pub All-middle :
    (P : ℕ → Type 0) (xs : List ℕ) (n : ℕ) (ys : List ℕ) → All P (xs ++ (n ∷ ys)) → All P (xs ++ ys)
All-middle P [] n ys a = a.1
All-middle P (x ∷ xs) n ys a = (a.0, All-middle P xs n ys a.1)

pub NotIn-middle :
    (p : ℕ) (xs : List ℕ) (n : ℕ) (ys : List ℕ) → Distinct (xs ++ (n ∷ ys)) → NotIn n (xs ++ ys)
NotIn-middle p [] n ys d = d.0
NotIn-middle p (x ∷ xs) n ys d = (λ e. first xs d.0 (sym e), NotIn-middle p xs n ys d.1)
  where
    first : (zs : List ℕ) → NotIn x (zs ++ (n ∷ ys)) → x ≢ n
    first [] h = h.0
    first (z ∷ zs) h = first zs h.1

pub Distinct-middle :
    (xs : List ℕ) (n : ℕ) (ys : List ℕ) → Distinct (xs ++ (n ∷ ys)) → Distinct (xs ++ ys)
Distinct-middle [] n ys d = d.1
Distinct-middle (x ∷ xs) n ys d = (drop_it xs d.0, Distinct-middle xs n ys d.1)
  where
    drop_it : (zs : List ℕ) → NotIn x (zs ++ (n ∷ ys)) → NotIn x (zs ++ ys)
    drop_it [] h = h.1
    drop_it (z ∷ zs) h = (h.0, drop_it zs h.1)

pub All-at : (P : ℕ → Type 0) (xs : List ℕ) (n : ℕ) (ys : List ℕ) → All P (xs ++ (n ∷ ys)) → P n
All-at P [] n ys a = a.0
All-at P (x ∷ xs) n ys a = All-at P xs n ys a.1

pub NotIn-at : (p : ℕ) (xs : List ℕ) (n : ℕ) (ys : List ℕ) → NotIn p (xs ++ (n ∷ ys)) → p ≢ n
NotIn-at p [] n ys h = h.0
NotIn-at p (x ∷ xs) n ys h = NotIn-at p xs n ys h.1

-- The sets of nodes stay apart when `n` moves over.
pub moved-Apart :
    (p : ℕ) (xs : List ℕ) (n : ℕ) (ys : List ℕ) (h : ℕ) (zs : List ℕ)
    → Distinct (p ∷ (xs ++ (n ∷ ys)))
    → Apart (p ∷ (xs ++ (n ∷ ys))) (h ∷ zs)
    → Distinct (h ∷ zs)
    → Distinct (p ∷ (xs ++ ys)) × Distinct (h ∷ (n ∷ zs)) × Apart (p ∷ (xs ++ ys)) (h ∷ (n ∷ zs))
moved-Apart p xs n ys h zs d far_apart dz = (
  Distinct-middle (p ∷ xs) n ys d,
  ((λ e. far.0 (sym e), dz.0), (far.1, dz.1)),
  Apart-sym (h ∷ (n ∷ zs)) (p ∷ (xs ++ ys)) both,
)
  where
    far : NotIn n (h ∷ zs)
    far = All-at (λ x. NotIn x (h ∷ zs)) xs n ys far_apart.1

    swapped : Apart (h ∷ zs) (p ∷ (xs ++ ys))
    swapped =
        Apart-sym (p ∷ (xs ++ ys)) (h ∷ zs)
          (far_apart.0, All-middle (λ x. NotIn x (h ∷ zs)) xs n ys far_apart.1)

    both : Apart (h ∷ (n ∷ zs)) (p ∷ (xs ++ ys))
    both =
        (swapped.0, ((λ e. NotIn-at p xs n ys d.0 (sym e), NotIn-middle p xs n ys d.1), swapped.1))
