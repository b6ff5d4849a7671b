-- ===== src/Memos/Kernel/Fork.antt =====
-- `copy_pagetable` and `fork` of OS/WeensyOS/MemOS/kernel.c.
use code_snippet.Prelude.{
  ℕ, suc, ◌+◌, ◌*◌, ◌/◌, ◌%◌, ◌<◌, ◌≡◌, ◌≢◌, refl, ◌∙◌, sym, ap, arith, Option, none, some, true,
  false, ◌==◌, update, ◌⊎◌, inl, inr, Bool-cases,
}
use mathlib.Core.Path.{subst}
use code_snippet.Memos.Paging.{Memory, has_p, virtual_memory_lookup}
use code_snippet.Memos.Paging.Mapping.{HasLevel2, seen, lookup-seen, seen-new}
use code_snippet.Memos.Pages.{
  Pages, po_free, npages, set_info, copy_pagetable, fill_pagetable, first_table, second_table,
}
use code_snippet.Memos.Pages.Owners.{owner_of, found, full, find_free_physic_page-Allocates}
use code_snippet.Memos.Kernel.Copying.{free_count, Full-free_count, free_count-taken}
use code_snippet.Memos.Pages.Counting.{writable}
use code_snippet.Memos.Kernel.Forking.{Family, Going, Copied}

-- A process whose tables and writable pages are in use.
pub record Parent (s : Pages) (old t : ℕ) : Type 0 where
  pub tables : HasLevel2 s.memory old t
  pub old_used : owner_of s (old / 4096) ≢ po_free
  pub t_used : owner_of s t ≢ po_free
  pub sources :
      (j : ℕ) → writable (s.memory t j) ≡ true → owner_of s (s.memory t j / 4096) ≢ po_free

-- The memory after `copy_pagetable` made the tables at pages `n` and `u`.
abbrev pub tables_made : Memory → ℕ → ℕ → ℕ → ℕ → Memory
tables_made mem d t n u =
    update (update (update mem n (λ i. 0)) n (update (λ i. 0) 0 (u * 4096 + mem d 0 % 4096))) u
      (mem t)

abbrev pub two_pages : Pages → ℕ → ℕ → ℕ → Pages
two_pages s pid n u =
    set_info u (record { owner = pid; refcount = 1 })
      (set_info n (record { owner = pid; refcount = 1 }) s)

abbrev pub forked_pages : Pages → ℕ → ℕ → ℕ → ℕ → ℕ → Pages
forked_pages s pid d t n u = record (two_pages s pid n u) { memory = tables_made s.memory d t n u }

fill-tables :
    (s : Pages) (old t n u : ℕ)
    → HasLevel2 s.memory old t
    → n ≢ old / 4096
    → n ≢ t
    → fill_pagetable old (n * 4096) (u * 4096) s
      ≡ record s { memory = tables_made s.memory (old / 4096) t n u }
unfolding fill_pagetable
fill-tables s old t n u w a b =
    let page_n : n * 4096 / 4096 ≡ n = omega arith in
    let page_u : u * 4096 / 4096 ≡ u = omega arith in
    let not_old : (n == old / 4096) ≡ false = ground (arith, a) in
    let same : (n == n) ≡ true = ground arith in
    let level2 : s.memory (old / 4096) 0 / 4096 * 4096 / 4096 ≡ t = omega (arith, w.at) in
    let not_t : (n == t) ≡ false = ground (arith, b) in
    rw (page_n, page_u, not_old, same, level2, not_t) refl

-- What `copy_pagetable` returns: the address of a new table at page `n`, or no table.
pub data Tables (s : Pages) (pid old t : ℕ) (r : Option ℕ × Pages) : Type 0 where
  made :
      (n u : ℕ)
      → n < 512
      → u < 512
      → owner_of s n ≡ po_free
      → owner_of s u ≡ po_free
      → n ≢ u
      → r ≡ (some (n * 4096), forked_pages s pid (old / 4096) t n u)
      → free_count s ≡ 2 + free_count (forked_pages s pid (old / 4096) t n u)
      → Tables s pid old t r
  no_table : (s' : Pages) → free_count s < 2 → r ≡ (none, s') → Tables s pid old t r

not-free : (s : Pages) (n q : ℕ) → owner_of s n ≡ po_free → owner_of s q ≢ po_free → n ≢ q
not-free s n q free used e = used (sym (ap (λ i. owner_of s i) e) ∙ free)

pub copy_pagetable-Tables :
    (s : Pages) (pid old t : ℕ)
    → pid ≢ 0
    → Parent s old t
    → Tables s pid old t (copy_pagetable old pid s)
unfolding copy_pagetable first_table second_table
copy_pagetable-Tables s pid old t pos w = elim (find_free_physic_page-Allocates pid s) [
  | full none_free a ↦
      no_table s (let zero_free = Full-free_count s none_free in omega (arith, zero_free))
        (rw (copy_pagetable, a) refl)
  | found n ln fn a ↦
      (let s1 = set_info n (record { owner = pid; refcount = 1 }) s in
        let one = took n s ln fn in
        elim (find_free_physic_page-Allocates pid s1) [
          | full none_free b ↦
              no_table s1
                (let zero_free = Full-free_count s1 none_free in omega (arith, zero_free, one))
                (rw (copy_pagetable, a, first_table, b) refl)
          | found u lu fu b ↦
              (let n_u = new-other n u fu in
                made n u ln lu fn (ground (arith, fu, n_u)) n_u
                  (rw (copy_pagetable, a, first_table, b, second_table)
                    (ap (λ x. (some (n * 4096), x))
                      (fill-tables (two_pages s pid n u) old t n u w.tables
                        (not-free s n (old / 4096) fn w.old_used) (not-free s n t fn w.t_used))))
                  (let two = took u s1 lu fu in omega (arith, one, two)))
        ])
]
  where
    took :
        (n : ℕ) (s : Pages)
        → n < npages
        → owner_of s n ≡ po_free
        → free_count s ≡ suc (free_count (set_info n (record { owner = pid; refcount = 1 }) s))
    took n s l free =
        let s1 = set_info n (record { owner = pid; refcount = 1 }) s in
        let mine : owner_of s1 n ≡ pid = ground arith in
        free_count-taken s s1 n l free (λ c. pos (sym mine ∙ c)) (λ q ne. ground (arith, ne))

    new-other :
        (n u : ℕ)
        → owner_of (set_info n (record { owner = pid; refcount = 1 }) s) u ≡ po_free
        → n ≢ u
    new-other n u free e = pos (ground (arith, e, free))

pub forked-used :
    (s : Pages) (pid d t n u q : ℕ)
    → owner_of s n ≡ po_free
    → owner_of s u ≡ po_free
    → owner_of s q ≢ po_free
    → owner_of (forked_pages s pid d t n u) q ≢ po_free
forked-used s pid d t n u q fn fu used =
    let a = not-free s n q fn used in let b = not-free s u q fu used in ground (arith, a, b, used)

pub forked-Family :
    (s : Pages) (pid old t n u : ℕ)
    → pid ≢ 0
    → Parent s old t
    → u < 512
    → owner_of s n ≡ po_free
    → owner_of s u ≡ po_free
    → n ≢ u
    → Family (forked_pages s pid (old / 4096) t n u) pid (n * 4096) old t u
forked-Family s pid old t n u pos w lu fn fu n_u =
    let s0 = forked_pages s pid (old / 4096) t n u in
    let n_old = not-free s n (old / 4096) fn w.old_used in
    let u_old = not-free s u (old / 4096) fu w.old_used in
    let n_t = not-free s n t fn w.t_used in
    let u_t = not-free s u t fu w.t_used in
    let u_n : u ≢ n = λ e. n_u (sym e) in
    let page : n * 4096 / 4096 ≡ n = omega arith in
    let old_same : s0.memory (old / 4096) ≡ s.memory (old / 4096) = ground (arith, n_old, u_old) in
    let t_same : s0.memory t ≡ s.memory t = ground (arith, n_t, u_t) in
    let first : s0.memory (n * 4096 / 4096) 0 ≡ u * 4096 + s.memory (old / 4096) 0 % 4096 =
      ground (arith, page, u_n) in
    record {
      pid-pos = pos;
      parent = record {
        aligned = w.tables.aligned;
        at = ap (λ m. m 0 / 4096) old_same ∙ w.tables.at;
        flags = ap (λ m. m 0 % 8) old_same ∙ w.tables.flags;
        low = w.tables.low;
        apart = w.tables.apart;
      };
      child = record {
        aligned = omega arith;
        at = ap (λ e. e / 4096) first ∙ omega arith;
        flags = ap (λ e. e % 8) first ∙ omega (arith, w.tables.flags);
        low = lu;
        apart = λ e. n_u (sym (e ∙ page));
      };
      old_used = ground (arith, n_old, u_old, w.old_used);
      new_used = subst (λ i. owner_of s0 i ≢ po_free) (sym page) (ground (arith, pos, u_n));
      t_used = ground (arith, n_t, u_t, w.t_used);
      u_used = ground (arith, pos);
      t_u = λ e. u_t (sym e);
      old_u = λ e. u_old (sym e);
      sources = λ j h.
          subst (λ m. owner_of s0 (m j / 4096) ≢ po_free) (sym t_same)
            (forked-used s pid (old / 4096) t n u (s.memory t j / 4096) fn fu
              (w.sources j (subst (λ m. writable (m j) ≡ true) t_same h)));
      sources_u = λ j h e.
          not-free s u (s.memory t j / 4096) fu
            (w.sources j (subst (λ m. writable (m j) ≡ true) t_same h))
            (sym (ap (λ m. m j / 4096) (sym t_same) ∙ e));
    }

-- The entries of the new table are the parent's.
forked-entries :
    (s : Pages) (pid d t n u j : ℕ) → (forked_pages s pid d t n u).memory u j ≡ s.memory t j
forked-entries s pid d t n u j = ground arith

pub forked-kept :
    (s : Pages) (pid d t n u q : ℕ)
    → owner_of s n ≡ po_free
    → owner_of s u ≡ po_free
    → owner_of s q ≢ po_free
    → (forked_pages s pid d t n u).memory q ≡ s.memory q
forked-kept s pid d t n u q fn fu used =
    let a = not-free s n q fn used in let b = not-free s u q fu used in ground (arith, a, b)

-- What the child has at the user's page `j`: a page that was free and that it owns, with the contents and
-- permissions of the parent's page, if that is writable; otherwise what the parent has.
abbrev pub Inherits : Pages → Pages → ℕ → ℕ → ℕ → ℕ → ℕ → Type 0
Inherits s s' pid old new t j =
    ((writable (s.memory t j) ≡ true)
      × ((p : ℕ) × (owner_of s p ≡ po_free)
          × (owner_of s' p ≡ pid)
          × (virtual_memory_lookup s'.memory new (j * 4096)
              ≡ record { pn = p; pa = p * 4096; perm = s.memory t j % 4096 })
          × (s'.memory p ≡ s.memory (s.memory t j / 4096))))
    ⊎ ((writable (s.memory t j) ≡ false)
        × (virtual_memory_lookup s'.memory new (j * 4096)
            ≡ virtual_memory_lookup s.memory old (j * 4096)))

forked-free :
    (s : Pages) (pid d t n u q : ℕ)
    → owner_of s n ≡ po_free
    → owner_of s u ≡ po_free
    → owner_of (forked_pages s pid d t n u) q ≡ po_free
    → owner_of s q ≡ po_free
forked-free s pid d t n u q fn fu free = elim (Bool-cases (owner_of s q == 0)) [
  | inl e ↦ ground (arith, e)
  | inr e ↦ absurd (forked-used s pid d t n u q fn fu (ground (arith, e)) free)
]

pub Copied-Inherits :
    (s s' : Pages) (pid old t n u j first v : ℕ)
    → Parent s old t
    → owner_of s n ≡ po_free
    → owner_of s u ≡ po_free
    → j < 1024
    → Going (forked_pages s pid (old / 4096) t n u) s' pid (n * 4096) old t u first v
    → Copied (forked_pages s pid (old / 4096) t n u) s' pid t u j
    → Inherits s s' pid old (n * 4096) t j
Copied-Inherits s s' pid old t n u j first v w fn fu l g (inl c) =
    let s0 = forked_pages s pid (old / 4096) t n u in
    let t_same = forked-kept s pid (old / 4096) t n u t fn fu w.t_used in
    let w_s : writable (s.memory t j) ≡ true = subst (λ m. writable (m j) ≡ true) t_same c.0 in
    let e_s = ap (λ m. m j) t_same in
    let odd : has_p (s.memory t j % 4096) ≡ true = ground (arith, w_s) in
    inl (
      w_s,
      (
        c.1.0,
        forked-free s pid (old / 4096) t n u c.1.0 fn fu c.1.1,
        c.1.2,
        lookup-seen s'.memory (n * 4096) u j g.child l
            ∙ ap seen (c.1.3 ∙ ap (λ z. c.1.0 * 4096 + z % 4096) e_s)
            ∙ seen-new c.1.0 (s.memory t j % 4096) (omega arith) odd,
        c.1.4
            ∙ ap (λ z. s0.memory (z / 4096)) e_s
            ∙ forked-kept s pid (old / 4096) t n u (s.memory t j / 4096) fn fu (w.sources j w_s),
      ),
    )
Copied-Inherits s s' pid old t n u j first v w fn fu l g (inr c) =
    let t_same = forked-kept s pid (old / 4096) t n u t fn fu w.t_used in
    inr (
      subst (λ m. writable (m j) ≡ false) t_same c.0,
      lookup-seen s'.memory (n * 4096) u j g.child l
          ∙ ap seen (c.1 ∙ forked-entries s pid (old / 4096) t n u j)
          ∙ sym (lookup-seen s.memory old t j w.tables l),
    )
