-- ===== src/Srt/Client/Lists.antt =====
-- The used list and the free list of Networks/DartNet/SRT: a block is on the one or on the other.
use code_snippet.Prelude.{
  Apart, Apart-sym, All-middle, NotIn-middle, All-at, NotIn-at, NotIn, Distinct, pred_of, pred-ne,
  ℕ, ◌≡◌, ◌≢◌, refl, sym, List, ◌∷◌, ◌++◌,
}
use mathlib.Core.Path.{subst}
use code_snippet.Srt.Tcb.{Store, insert_into_list}
use code_snippet.Srt.Tcb.Effect.{unlinked}
use code_snippet.Srt.Tcb.Linked.{
  Linked, insert_into_list-Linked, insert_into_list-other, prev-pred_of, unlinked-Linked,
}
use code_snippet.Srt.Tcb.Moves.{unlinked-other}

-- The used list holds `us` and the free list holds `fs`; no block is on both or twice on one.
pub record Lists (s : Store) (us fs : List ℕ) : Type 0 where
  pub used_linked : Linked s s.tcb_used_list us
  pub free_linked : Linked s s.tcb_free_list fs
  pub used_distinct : Distinct (s.tcb_used_list ∷ us)
  pub free_distinct : Distinct (s.tcb_free_list ∷ fs)
  pub apart : Apart (s.tcb_used_list ∷ us) (s.tcb_free_list ∷ fs)

-- Puts `n`, which is on neither list, to the front of the list at `h`.
pub put_over :
    (s1 : Store) (p : ℕ) (vs : List ℕ) (n h : ℕ) (zs : List ℕ)
    → NotIn n (h ∷ zs)
    → NotIn n (p ∷ vs)
    → Apart (h ∷ zs) (p ∷ vs)
    → Distinct (h ∷ zs)
    → Linked s1 p vs
    → Linked s1 h zs
    → Linked (insert_into_list h n s1) p vs × Linked (insert_into_list h n s1) h (n ∷ zs)
put_over s1 p vs n h zs far other far_apart dz l1 lz1 = (
  insert_into_list-other h n s1 zs p vs far.0 lz1 other far_apart.0 far_apart.1 l1,
  insert_into_list-Linked h n s1 zs far.0 far.1 dz.0 dz.1 lz1,
)

-- Moves `n` from the list at `p` to the front of the list at `h`.
pub move_over :
    (s : Store) (p : ℕ) (xs : List ℕ) (n : ℕ) (ys : List ℕ) (h : ℕ) (zs : List ℕ)
    → Distinct (p ∷ (xs ++ (n ∷ ys)))
    → Linked s p (xs ++ (n ∷ ys))
    → Apart (p ∷ (xs ++ (n ∷ ys))) (h ∷ zs)
    → Distinct (h ∷ zs)
    → Linked s h zs
    → Linked (insert_into_list h n (unlinked (pred_of p xs) n s)) p (xs ++ ys)
      × Linked (insert_into_list h n (unlinked (pred_of p xs) n s)) h (n ∷ zs)
move_over s p xs n ys h zs d l far_apart dz lz =
    put_over s1 p (xs ++ ys) n h zs far (n_p, NotIn-middle p xs n ys d.1) swapped dz l1 lz1
  where
    s1 : Store
    s1 = unlinked (pred_of p xs) n s

    far : NotIn n (h ∷ zs)
    far = All-at (λ x. NotIn x (h ∷ zs)) xs n ys far_apart.1

    lz1 : Linked (unlinked (pred_of p xs) n s) h zs
    lz1 = unlinked-other s p xs n ys h zs d l far_apart lz

    l1 : Linked (unlinked (pred_of p xs) n s) p (xs ++ ys)
    l1 =
        unlinked-Linked s p (pred_of p xs) xs n ys refl (prev-pred_of s p xs n ys l)
          (pred-ne p xs n ys d) d l

    n_p : n ≢ p
    n_p e = NotIn-at p xs n ys d.0 (sym e)

    swapped : Apart (h ∷ zs) (p ∷ (xs ++ ys))
    swapped =
        Apart-sym (p ∷ (xs ++ ys)) (h ∷ zs)
          (far_apart.0, All-middle (λ x. NotIn x (h ∷ zs)) xs n ys far_apart.1)

pub Lists-at :
    (s : Store) (u f : ℕ) (us fs : List ℕ)
    → s.tcb_used_list ≡ u
    → s.tcb_free_list ≡ f
    → Linked s u us
    → Linked s f fs
    → Distinct (u ∷ us) × Distinct (f ∷ fs) × Apart (u ∷ us) (f ∷ fs)
    → Lists s us fs
Lists-at s u f us fs eu ef lu lf d = record {
  used_linked = subst (λ h. Linked s h us) (sym eu) lu;
  free_linked = subst (λ h. Linked s h fs) (sym ef) lf;
  used_distinct = subst (λ h. Distinct (h ∷ us)) (sym eu) d.0;
  free_distinct = subst (λ h. Distinct (h ∷ fs)) (sym ef) d.1;
  apart =
      subst (λ h. Apart (s.tcb_used_list ∷ us) (h ∷ fs)) (sym ef)
        (subst (λ h. Apart (h ∷ us) (f ∷ fs)) (sym eu) d.2);
}
