-- ===== src/Memos/Pages/Counting.antt =====
-- The number of free pages in OS/WeensyOS/MemOS/kernel.c, and the number that a copy of writable pages takes.
use code_snippet.Prelude.{
  ℕ, zero, suc, ◌<◌, ◌≡◌, ◌≢◌, refl, arith, Bool, true, false, ◌==◌, if◌then◌else◌, inl, inr,
  Bool-cases, ◌%◌,
}
use mathlib.Core.Path.{subst}
use code_snippet.Memos.Pages.{po_free}

-- The pages below `n` that are free for the owners `o`.
unfoldable pub free_pages : ℕ → (ℕ → ℕ) → ℕ
free_pages zero o = 0
free_pages (suc n) o = let rest = free_pages n o in if o n == po_free then suc rest else rest

-- An entry for a page that its process writes.
abbrev pub writable : ℕ → Bool
writable e = e % 8 == 7

-- The writable entries of a table among the `rounds` ones from `v` on.
unfoldable pub writable_entries : (ℕ → ℕ) → ℕ → ℕ → ℕ
writable_entries row v zero = 0
writable_entries row v (suc rounds) =
    let rest = writable_entries row (suc v) rounds in if writable (row v) then suc rest else rest

pub free_pages-none : (n : ℕ) (o : ℕ → ℕ) → ((q : ℕ) → q < n → o q ≢ po_free) → free_pages n o ≡ 0
unfolding free_pages
free_pages-none zero o h = refl
free_pages-none (suc n) o h =
    let rest = free_pages-none n o (λ q l. h q (omega (arith, l))) in
    let used = h n (omega arith) in ground (arith, rest, used)

pub free_pages-same :
    (n : ℕ) (o o' : ℕ → ℕ) → ((q : ℕ) → q < n → o' q ≡ o q) → free_pages n o' ≡ free_pages n o
unfolding free_pages
free_pages-same zero o o' h = refl
free_pages-same (suc n) o o' h =
    let rest = free_pages-same n o o' (λ q l. h q (omega (arith, l))) in
    let last = h n (omega arith) in rw (last, rest) refl

-- One page fewer is free when page `p` was given out.
pub free_pages-taken :
    (n p : ℕ) (o o' : ℕ → ℕ)
    → p < n
    → o p ≡ po_free
    → o' p ≢ po_free
    → ((q : ℕ) → q ≢ p → o' q ≡ o q)
    → free_pages n o ≡ suc (free_pages n o')
unfolding free_pages
free_pages-taken zero p o o' l a b h = absurd (omega (arith, l))
free_pages-taken (suc n) p o o' l a b h = elim (Bool-cases (p == n)) [
  | inl e ↦
      (let same : p ≡ n = ground (arith, e) in
        let rest = free_pages-same n o o' (λ q m. h q (omega (arith, m, same))) in
        let was : o n ≡ po_free = subst (λ i. o i ≡ po_free) same a in
        let now : o' n ≢ po_free = subst (λ i. o' i ≢ po_free) same b in
        ground (arith, rest, was, now))
  | inr e ↦
      (let ne : n ≢ p = ground (arith, e) in
        let rest = free_pages-taken n p o o' (ground (arith, e, l)) a b h in
        let last = h n ne in ground (arith, rest, last))
]

-- The writable entries from `v` on are one more than those after it when `v` is writable, and else the same.
pub writable_entries-one :
    (row : ℕ → ℕ) (v rounds : ℕ)
    → writable (row v) ≡ true
    → writable_entries row v (suc rounds) ≡ suc (writable_entries row (suc v) rounds)
unfolding writable_entries
writable_entries-one row v rounds w = rw (writable_entries, w) refl

pub writable_entries-skip :
    (row : ℕ → ℕ) (v rounds : ℕ)
    → writable (row v) ≡ false
    → writable_entries row v (suc rounds) ≡ writable_entries row (suc v) rounds
unfolding writable_entries
writable_entries-skip row v rounds w = rw (writable_entries, w) refl
