-- ===== src/Memos/Pages/Owners.antt =====
-- The search for a free page and the release of pages in OS/WeensyOS/MemOS/kernel.c.
use code_snippet.Prelude.{
  ℕ, zero, suc, ◌+◌, ◌*◌, ◌≤◌, ◌<◌, ◌≡◌, ◌≢◌, refl, arith, Option, none, some, false, ◌==◌, ◌⊎◌,
  inl, inr, Bool-cases,
}
use mathlib.Core.Path.{subst}
use code_snippet.Memos.Pages.{
  Pages, po_free, npages, set_info, find_free_from, find_free_physic_page,
}

abbrev pub owner_of : Pages → ℕ → ℕ
owner_of s p = (s.pageinfo p).owner

-- What a search from page `i` over `rounds` pages has found.
abbrev Finds : ℕ → ℕ → Pages → Option ℕ → Type 0
Finds rounds i s found =
    ((p : ℕ) × (found ≡ some p)
      × (i ≤ p)
      × (p < i + rounds)
      × (owner_of s p ≡ po_free)
      × ((q : ℕ) → i ≤ q → q < p → owner_of s q ≢ po_free))
    ⊎ ((found ≡ none) × ((q : ℕ) → i ≤ q → q < i + rounds → owner_of s q ≢ po_free))

find_free_from-Finds : (rounds i : ℕ) (s : Pages) → Finds rounds i s (find_free_from rounds i s)
unfolding find_free_from
find_free_from-Finds zero i s = inr (refl, λ q a b. absurd (omega (arith, a, b)))
find_free_from-Finds (suc rounds) i s = elim (Bool-cases (owner_of s i == po_free)) [
  | inl e ↦ inl (
    i,
    ground (arith, e),
    omega arith,
    omega arith,
    ground (arith, e),
    λ q a b. absurd (omega (arith, a, b)),
  )
  | inr e ↦ elim (find_free_from-Finds rounds (i + 1) s) [
    | inl f ↦ inl (
      f.0,
      ground (arith, e, f.1),
      omega (arith, f.2),
      omega (arith, f.3),
      f.4,
      λ q a b. earlier q a (λ c. f.5 q c b) e,
    )
    | inr f ↦ inr (ground (arith, e, f.0), λ q a b. earlier q a (λ c. f.1 q c (omega (arith, b))) e)
  ]
]
  where
    earlier :
        (q : ℕ)
        → i ≤ q
        → (i + 1 ≤ q → owner_of s q ≢ po_free)
        → (owner_of s i == po_free) ≡ false
        → owner_of s q ≢ po_free
    earlier q a later e = elim (split i q a) [
      | inl c ↦ subst (λ k. owner_of s k ≢ po_free) c (ground (arith, e))
      | inr c ↦ later c
    ]
      where
        split : (i q : ℕ) → i ≤ q → (i ≡ q) ⊎ (i + 1 ≤ q)
        split i q a = ground (arith, a)

-- The outcome of an allocation for `owner`.
pub data Allocates (owner : ℕ) (s : Pages) (r : Option ℕ × Pages) : Type 0 where
  found :
      (p : ℕ)
      → p < npages
      → owner_of s p ≡ po_free
      → r ≡ (some (p * 4096), set_info p (record { owner = owner; refcount = 1 }) s)
      → Allocates owner s r
  full : ((q : ℕ) → q < npages → owner_of s q ≢ po_free) → r ≡ (none, s) → Allocates owner s r

pub find_free_physic_page-Allocates :
    (owner : ℕ) (s : Pages) → Allocates owner s (find_free_physic_page owner s)
unfolding find_free_physic_page
find_free_physic_page-Allocates owner s = elim (find_free_from-Finds npages 0 s) [
  | inl f ↦ found f.0 (omega (arith, f.3)) f.4 (rw (find_free_physic_page, f.1) refl)
  | inr f ↦
      full (λ q l. f.1 q (omega arith) (omega (arith, l))) (rw (find_free_physic_page, f.0) refl)
]
