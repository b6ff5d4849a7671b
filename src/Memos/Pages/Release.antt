-- ===== src/Memos/Pages/Release.antt =====
-- `release_page` and `release_pagetable` of OS/WeensyOS/MemOS/kernel.c.
use code_snippet.Prelude.{
  ℕ, zero, suc, ◌+◌, ◌≤◌, ◌<◌, ◌≡◌, ◌≢◌, refl, ◌∙◌, sym, ap, arith, true, ◌==◌, ◌&&◌, for_range,
  ◌⊎◌, inl, inr, Bool-cases,
}
use mathlib.Core.Path.{subst}
use code_snippet.Memos.Paging.{pagenumber, pte_addr, entry}
use code_snippet.Memos.Pages.{Pages, po_free, is_referenced, released, release_page}
use code_snippet.Memos.Pages.Owners.{owner_of}

pub release_page-memory : (owner a : ℕ) (s : Pages) → (release_page owner a s).memory ≡ s.memory
unfolding release_page
release_page-memory owner a s =
    elim (Bool-cases (
      (s.pageinfo (pagenumber a)).owner == owner
      && is_referenced (s.pageinfo (pagenumber a)).refcount)) [
        | inl e ↦ rw e refl
        | inr e ↦ rw e refl
      ]

-- Another page stays.
pub release_page-other :
    (owner a q : ℕ) (s : Pages)
    → pagenumber a ≢ q
    → (release_page owner a s).pageinfo q ≡ s.pageinfo q
unfolding release_page
release_page-other owner a q s ne = ground (arith, ne)

pub release_page-at :
    (owner a : ℕ) (s : Pages)
    → owner_of s (pagenumber a) ≡ owner
    → is_referenced (s.pageinfo (pagenumber a)).refcount ≡ true
    → (release_page owner a s).pageinfo (pagenumber a) ≡ released (s.pageinfo (pagenumber a))
unfolding release_page
release_page-at owner a s o r =
    let same : ((s.pageinfo (pagenumber a)).owner == owner) ≡ true = ground (arith, o) in
    let here : (pagenumber a == pagenumber a) ≡ true = ground arith in
    rw (release_page, same, r, here) refl

-- A free page stays free.
pub release_page-free :
    (owner a q : ℕ) (s : Pages)
    → owner_of s q ≡ po_free
    → owner_of (release_page owner a s) q ≡ po_free
unfolding release_page
release_page-free owner a q s e = elim (Bool-cases (pagenumber a == q)) [
  | inl same ↦ ground (arith, e, same)
  | inr other ↦ ground (arith, e, other)
]

-- The page that an entry of a table refers to.
abbrev pub target : Pages → ℕ → ℕ → ℕ
target s pagetable i = pagenumber (pte_addr (entry s.memory pagetable i))

-- A round of the loop.
abbrev pub round_of : ℕ → ℕ → ℕ → Pages → Pages
round_of owner pagetable i t = release_page owner (pte_addr (entry t.memory pagetable i)) t

range-free :
    (n i owner pagetable q : ℕ) (s : Pages)
    → owner_of s q ≡ po_free
    → owner_of (for_range n i (round_of owner pagetable) s) q ≡ po_free
unfolding for_range
range-free zero i owner pagetable q s e = e
range-free (suc n) i owner pagetable q s e =
    range-free n (i + 1) owner pagetable q (round_of owner pagetable i s)
      (release_page-free owner (pte_addr (entry s.memory pagetable i)) q s e)

pub range-memory :
    (n i owner pagetable : ℕ) (s : Pages)
    → (for_range n i (round_of owner pagetable) s).memory ≡ s.memory
unfolding for_range
range-memory zero i owner pagetable s = refl
range-memory (suc n) i owner pagetable s =
    range-memory n (i + 1) owner pagetable (round_of owner pagetable i s)
    ∙ release_page-memory owner (pte_addr (entry s.memory pagetable i)) s

-- A page that no entry refers to stays.
pub range-other :
    (n i owner pagetable q : ℕ) (s : Pages)
    → ((e : ℕ) → i ≤ e → e < i + n → target s pagetable e ≢ q)
    → (for_range n i (round_of owner pagetable) s).pageinfo q ≡ s.pageinfo q
unfolding for_range
range-other zero i owner pagetable q s none_of = refl
range-other (suc n) i owner pagetable q s none_of =
    let m = release_page-memory owner (pte_addr (entry s.memory pagetable i)) s in
    range-other n (i + 1) owner pagetable q (round_of owner pagetable i s) (λ e a b.
      subst (λ z. pagenumber (pte_addr (entry z pagetable e)) ≢ q) (sym m)
        (none_of e (omega (arith, a)) (omega (arith, b))))
    ∙ release_page-other owner (pte_addr (entry s.memory pagetable i)) q s
        (none_of i (omega arith) (omega arith))

-- A page that one entry refers to is released once.
pub range-once :
    (n i owner pagetable q j : ℕ) (s : Pages)
    → i ≤ j
    → j < i + n
    → target s pagetable j ≡ q
    → ((e : ℕ) → i ≤ e → e < i + n → e ≢ j → target s pagetable e ≢ q)
    → owner_of s q ≡ owner
    → is_referenced (s.pageinfo q).refcount ≡ true
    → (for_range n i (round_of owner pagetable) s).pageinfo q ≡ released (s.pageinfo q)
unfolding for_range
range-once zero i owner pagetable q j s a b e others o r = absurd (omega (arith, a, b))
range-once (suc n) i owner pagetable q j s a b e others o r =
    let m = release_page-memory owner (pte_addr (entry s.memory pagetable i)) s in
    elim (Bool-cases (i == j)) [
      | inl c ↦
          (let here : target s pagetable i ≡ q =
              subst (λ z. target s pagetable z ≡ q) (ground (arith, c)) e in
            range-other n (i + 1) owner pagetable q (round_of owner pagetable i s) (λ f x y.
              subst (λ z. pagenumber (pte_addr (entry z pagetable f)) ≢ q) (sym m)
                (others f (omega (arith, x)) (omega (arith, y)) (ground (arith, c, x))))
            ∙ subst (λ z. (round_of owner pagetable i s).pageinfo z ≡ released (s.pageinfo z)) here
                (release_page-at owner (pte_addr (entry s.memory pagetable i)) s
                  (ap (λ z. owner_of s z) here ∙ o)
                  (ap (λ z. is_referenced (s.pageinfo z).refcount) here ∙ r)))
      | inr c ↦
          (let ne : i ≢ j = ground (arith, c) in
            let keep =
              release_page-other owner (pte_addr (entry s.memory pagetable i)) q s
                (others i (omega arith) (omega arith) ne) in
            range-once n (i + 1) owner pagetable q j (round_of owner pagetable i s)
              (ground (arith, a, ne)) (omega (arith, b))
              (ap (λ z. pagenumber (pte_addr (entry z pagetable j))) m ∙ e)
              (λ f x y d.
                subst (λ z. pagenumber (pte_addr (entry z pagetable f)) ≢ q) (sym m)
                  (others f (omega (arith, x)) (omega (arith, y)) d))
              (ap (λ z. z.owner) keep ∙ o) (ap (λ z. is_referenced z.refcount) keep ∙ r)
            ∙ ap (λ z. released z) keep)
    ]

-- A page with one reference, that an entry refers to, is free after the loop.
pub range-frees :
    (n i owner pagetable q j : ℕ) (s : Pages)
    → i ≤ j
    → j < i + n
    → target s pagetable j ≡ q
    → (s.pageinfo q ≡ record { owner = owner; refcount = 1 }) ⊎ (owner_of s q ≡ po_free)
    → owner_of (for_range n i (round_of owner pagetable) s) q ≡ po_free
unfolding for_range
range-frees zero i owner pagetable q j s a b e o = absurd (omega (arith, a, b))
range-frees (suc n) i owner pagetable q j s a b e o =
    let m = release_page-memory owner (pte_addr (entry s.memory pagetable i)) s in
    elim (Bool-cases (i == j)) [
      | inl c ↦
          range-free n (i + 1) owner pagetable q (round_of owner pagetable i s)
            (freed o (subst (λ z. target s pagetable z ≡ q) (ground (arith, c)) e))
      | inr c ↦
          range-frees n (i + 1) owner pagetable q j (round_of owner pagetable i s)
            (ground (arith, a, c)) (omega (arith, b))
            (ap (λ z. pagenumber (pte_addr (entry z pagetable j))) m ∙ e) (kept o)
    ]
  where
    at_q :
        (s.pageinfo q ≡ record { owner = owner; refcount = 1 })
        → target s pagetable i ≡ q
        → (round_of owner pagetable i s).pageinfo q ≡ record { owner = 0; refcount = 0 }
    at_q x here =
        subst (λ z. (round_of owner pagetable i s).pageinfo z ≡ released (s.pageinfo z)) here
          (release_page-at owner (pte_addr (entry s.memory pagetable i)) s
            (ap (λ z. owner_of s z) here ∙ ap (λ z. z.owner) x)
            (ap (λ z. is_referenced (s.pageinfo z).refcount) here
              ∙ ap (λ z. is_referenced z.refcount) x))
        ∙ ap (λ z. released z) x

    freed :
        (s.pageinfo q ≡ record { owner = owner; refcount = 1 }) ⊎ (owner_of s q ≡ po_free)
        → target s pagetable i ≡ q
        → owner_of (round_of owner pagetable i s) q ≡ po_free
    freed (inl x) here = ap (λ z. z.owner) (at_q x here)
    freed (inr x) here = release_page-free owner (pte_addr (entry s.memory pagetable i)) q s x

    kept :
        (s.pageinfo q ≡ record { owner = owner; refcount = 1 }) ⊎ (owner_of s q ≡ po_free)
        → ((round_of owner pagetable i s).pageinfo q ≡ record { owner = owner; refcount = 1 })
          ⊎ (owner_of (round_of owner pagetable i s) q ≡ po_free)
    kept (inr x) = inr (release_page-free owner (pte_addr (entry s.memory pagetable i)) q s x)
    kept (inl x) = elim (Bool-cases (target s pagetable i == q)) [
      | inl c ↦ inr (ap (λ z. z.owner) (at_q x (ground (arith, c))))
      | inr c ↦ inl (
          release_page-other owner (pte_addr (entry s.memory pagetable i)) q s (ground (arith, c))
          ∙ x)
    ]
